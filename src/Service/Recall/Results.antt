-- ===== src/Service/Recall/Results.antt =====
-- The seventh to the ninth phase of `Recall`: scores, co-traversal and the hits.
use memmy.Prelude.{String, true, Option, none, some, List, [], ◌∷◌, ◌++◌, if◌then◌else◌}
use memmy.Prelude.Int.{ℤ}
use memmy.Prelude.Dict.{Dict, get, put}
use memmy.Types.{Node, Message, co_traversal}
use memmy.Chunker.Text.{Text}
use memmy.Storage.Session.{Result, ok, err, not_found, pure, throw, attempt, ◌>>=◌, ◌>>◌}
use memmy.Storage.Graph.Node.{get_node}
use memmy.Storage.Graph.Message.{get_message}
use memmy.Service.Request.{Service, Action}
use memmy.Service.Association.{apply_edge_decay_reinforce}
use memmy.Service.Recall.Types.{Candidate, Visited, Scored, RecallHit}
use memmy.Service.Recall.Seeds.{upto}

module _ (s : Service) where
  open s use {float, database, commits, cfg}
  open float use {F, mul, pow, lt, nought}

  unfoldable pub cand_by_id : List (Candidate F) → Dict (Candidate F) → Dict (Candidate F)
  unfolding put
  cand_by_id [] m = m
  cand_by_id (c ∷ cs) m = cand_by_id cs (put c.node_id c m)

  unfoldable pub scored : String → Visited F → F → F → Scored F
  scored id v sim weight = record {
    node_id = id;
    score = mul v.best_score (pow weight cfg.weight_beta);
    breakdown = record {
      sim = sim;
      node_weight = weight;
      graph_mult = v.best_score;
      depth = v.depth;
    };
    path = v.best_path;
    via_edge = v.via_edge;
  }

  -- A node that is gone is passed over.
  abbrev pub with_node :
      String → Visited F → List (Scored F) → Result (Node F) → Action s (List (Scored F))
  with_node id v out (ok n) = pure (out ++ scored id v nought n.weight ∷ [])
  with_node id v out (err not_found) = pure out
  with_node id v out (err e) = throw e

  abbrev pub score_one :
      String
      → String
      → Visited F
      → List (Scored F)
      → Option (Candidate F)
      → Action s (List (Scored F))
  score_one tenant id v out (some c) = pure (out ++ scored id v c.sim c.node_weight ∷ [])
  score_one tenant id v out none =
      attempt (get_node float database commits tenant id) >>= with_node id v out

  unfoldable pub score_all :
      String
      → Dict (Candidate F)
      → List (String × Visited F)
      → List (Scored F)
      → Action s (List (Scored F))
  unfolding scored get
  score_all tenant cands [] out = pure out
  score_all tenant cands ((id, v) ∷ vs) out =
      score_one tenant id v out (get id cands) >>= score_all tenant cands vs

  -- The best first, and the first `k` of them if there are more.
  unfoldable pub best : ℤ → List (Scored F) → Result (List (Scored F))
  best k results = upto k (s.sort_slice (λ a b. lt b.score a.score) results)

  -- Every edge of a path.
  unfoldable pub co_traverse_path : String → List String → Action s (Unit {0})
  co_traverse_path tenant [] = pure tt
  co_traverse_path tenant (from ∷ []) = pure tt
  co_traverse_path tenant (from ∷ to ∷ path) = do
    e ←
        apply_edge_decay_reinforce s tenant from to co_traversal
          (mul cfg.edge_co_traversal_multiplier cfg.edge_co_retrieval_base) true
    co_traverse_path tenant (to ∷ path)

  unfoldable pub co_traverse : String → List (Scored F) → Action s (Unit {0})
  unfolding co_traverse_path
  co_traverse tenant [] = pure tt
  co_traverse tenant (r ∷ rs) =
      (if r.via_edge then co_traverse_path tenant r.path else pure tt) >> co_traverse tenant rs

  abbrev pub text_or_empty : Result Message → Text
  text_or_empty (ok m) = m.text
  text_or_empty (err e) = []

  unfoldable pub hit_of : Scored F → Node F → Text → RecallHit F
  hit_of r n source = record {
    node_id = r.node_id;
    text = n.text;
    source_msg_id = n.source_msg_id;
    source_text = source;
    score = r.score;
    score_breakdown = r.breakdown;
    path = r.path;
  }

  -- Whatever the error of `GetMessage`, the text of the source is then empty.
  abbrev pub with_hit :
      String → Scored F → List (RecallHit F) → Result (Node F) → Action s (List (RecallHit F))
  with_hit tenant r out (ok n) = do
    m ← attempt (get_message float database s.json commits tenant n.source_msg_id)
    pure (out ++ hit_of r n (text_or_empty m) ∷ [])
  with_hit tenant r out (err not_found) = pure out
  with_hit tenant r out (err e) = throw e

  unfoldable pub hits :
      String → List (Scored F) → List (RecallHit F) → Action s (List (RecallHit F))
  unfolding hit_of
  hits tenant [] out = pure out
  hits tenant (r ∷ rs) out = do
    n ← attempt (get_node float database commits tenant r.node_id)
    out' ← with_hit tenant r out n
    hits tenant rs out'
