-- ===== src/Eval/Metrics/Row.antt =====
-- `Compute` of internal/eval/metrics/metrics.go: the row of one query, with the results of
-- internal/eval/harness/runner.go and internal/eval/inspect/inspect.go that it reads.
use memmy.Prelude.{
  ℕ, zero, suc, ◌+◌, inl, inr, Bool-cases, ◌≡◌, refl, String, str_eq, Bool, true, false, not, ◌&&◌,
  ◌||◌, Option, none, some, List, [], ◌∷◌, if◌then◌else◌, length, map,
}
use memmy.Prelude.Int.{ℤ}
use memmy.Float.{Float}
use memmy.Chunker.Text.{Text}
use memmy.Types.Instant.{Time, unix_ms}
use memmy.Eval.Metrics.{recall_at, mrr_from, mrr, ndcg}
use memmy.Eval.Metrics.Ranking.{misses, dcg_loop-misses}

pub record LabeledQuery : Type 0 where
  pub id : String
  pub category : String
  pub text : Text
  pub gold_turn_uuids : List String
  pub notes : Text
  pub generated_at : Time

pub record Hit (F : Type 0) : Type 0 where
  pub rank : ℕ
  pub node_id : String
  pub text : Text
  pub score : F
  pub sim : F
  pub node_weight : F
  pub graph_mult : F
  pub depth : ℕ
  pub source_msg_id : String
  pub turn_uuid : String

pub record NodeState (F : Type 0) : Type 0 where
  pub node_id : String
  pub tenant_id : String
  pub weight : F
  pub last_touched : Time
  pub access_count : ℕ
  pub edge_count_out : ℕ
  pub edge_count_in : ℕ

pub record QueryResult (F : Type 0) : Type 0 where
  pub query : LabeledQuery
  pub started_at : Time
  pub finished_at : Time
  pub hits : List (Hit F)
  pub pre_state : List (NodeState F)
  pub post_state : List (NodeState F)
  pub error : String

pub record QueryRow (F : Type 0) : Type 0 where
  pub query_id : String
  pub category : String
  pub text : Text
  pub gold_turn_uuids : List String
  pub hit_node_ids : List String
  pub hit_gold_flags : List Bool
  pub hit_scores : List F
  pub recall_at_1 : F
  pub recall_at_3 : F
  pub recall_at_5 : F
  pub recall_at_8 : F
  pub mrr : F
  pub ndcg : F
  pub reinforcement_sum : F
  pub reinforcement_max : F
  pub started_at_unix_ms : ℤ
  pub finished_at_unix_ms : ℤ
  pub error : String

-- `gold[turn]` of the `stringSet`.
unfoldable pub is_gold : List String → String → Bool
is_gold [] turn = false
is_gold (g ∷ gs) turn = str_eq g turn || is_gold gs turn

-- `turnUUIDForNode` may be nil: then no flag is set.
unfoldable pub gold_flag : Option (String → String) → List String → String → Bool
unfolding is_gold
gold_flag none gold node_id = false
gold_flag (some turn_of) gold node_id =
    not (str_eq (turn_of node_id) "") && is_gold gold (turn_of node_id)

abbrev is_labelled : List String → Bool
is_labelled [] = false
is_labelled (g ∷ gs) = true

module _ (f : Float) where
  open f use {F, lt, add, sub, nought}

  -- `preByID[id]`: the last state of a node in the list is the one that is kept.
  unfoldable pub pre_weight : String → Option F → List (NodeState F) → Option F
  pre_weight id old [] = old
  pre_weight id old (st ∷ sts) =
      pre_weight id (if str_eq st.node_id id then some st.weight else old) sts

  abbrev add_delta : F → F × F → Option F → F × F
  add_delta post (sum, most) none = (sum, most)
  add_delta post (sum, most) (some pre) =
      let d = sub post pre in (add sum d, if lt most d then d else most)

  -- The loop over the states after the query: the sum and the maximum of the deltas so far.
  unfoldable pub deltas : List (NodeState F) → F × F → List (NodeState F) → F × F
  unfolding pre_weight
  deltas pre acc [] = acc
  deltas pre acc (st ∷ sts) =
      deltas pre (add_delta st.weight acc (pre_weight st.node_id none pre)) sts

  unfoldable pub compute : QueryResult F → Option (String → String) → QueryRow F
  unfolding gold_flag deltas
  compute qr turn_of =
      let gold = qr.query.gold_turn_uuids in
      let flags = map (λ h. gold_flag turn_of gold h.node_id) qr.hits in
      let reinforcement = deltas qr.pre_state (nought, nought) qr.post_state in
      record {
        query_id = qr.query.id;
        category = qr.query.category;
        text = qr.query.text;
        gold_turn_uuids = gold;
        hit_node_ids = map (λ h. h.node_id) qr.hits;
        hit_gold_flags = flags;
        hit_scores = map (λ h. h.score) qr.hits;
        recall_at_1 = recall_at f flags 1 (is_labelled gold);
        recall_at_3 = recall_at f flags 3 (is_labelled gold);
        recall_at_5 = recall_at f flags 5 (is_labelled gold);
        recall_at_8 = recall_at f flags 8 (is_labelled gold);
        mrr = mrr f flags;
        ndcg = ndcg f flags;
        reinforcement_sum = reinforcement.0;
        reinforcement_max = reinforcement.1;
        started_at_unix_ms = unix_ms qr.started_at;
        finished_at_unix_ms = unix_ms qr.finished_at;
        error = qr.error;
      }

  flag_none : (turn_of : Option (String → String)) (id : String) → gold_flag turn_of [] id ≡ false
  unfolding gold_flag
  flag_none none id = refl
  flag_none (some turn_of) id = elim (Bool-cases (str_eq (turn_of id) "")) [
    | inl e ↦ rw e refl
    | inr e ↦ rw e refl
  ]

  flags_none :
      (turn_of : Option (String → String)) (hits : List (Hit F))
      → map (λ h. gold_flag turn_of [] h.node_id) hits ≡ misses (length hits)
  flags_none turn_of [] = refl
  flags_none turn_of (h ∷ hits) = rw (flag_none turn_of h.node_id, flags_none turn_of hits) refl

  mrr_from-misses : (n i : ℕ) → mrr_from f i (misses n) ≡ nought
  unfolding mrr_from
  mrr_from-misses zero i = refl
  mrr_from-misses (suc n) i = mrr_from-misses n (i + 1)

  -- A query with no gold label has the score zero in every ranking measure, whatever its hits are
  -- and however they resolve to turns.
  compute-unlabelled :
      (qr : QueryResult F) (turn_of : Option (String → String))
      → qr.query.gold_turn_uuids ≡ []
      → ((compute qr turn_of).recall_at_1 ≡ nought)
        × ((compute qr turn_of).recall_at_8 ≡ nought)
        × ((compute qr turn_of).mrr ≡ nought)
        × ((compute qr turn_of).ndcg ≡ nought)
  unfolding compute recall_at mrr ndcg
  compute-unlabelled qr turn_of h =
      rw (h, flags_none turn_of qr.hits, mrr_from-misses, dcg_loop-misses f)
        (refl, refl, refl, refl)
