-- ===== src/Service/Recall/Hits.antt =====
-- The hits of `Recall`: how many there are, and how they are reached.
use memmy.Prelude.{
  ℕ, zero, suc, ◌+◌, ◌≤◌, arith, String, Bool, Option, none, some, List, [], ◌∷◌, All, All-append,
  length, length-append, take,
}
use mathlib.Core.Path.{subst}
use memmy.Prelude.Int.{ℤ, pos, negsuc, pos_part}
use memmy.Prelude.Dict.{Dict, get}
use memmy.Types.{Node}
use memmy.Storage.Session.{
  not_found, backend, message, tenant_invalid, Result, ok, err, Store, pure, attempt, ◌>>=◌,
}
use memmy.Storage.Graph.Node.{get_node}
use memmy.Storage.Graph.Message.{get_message}
use memmy.Service.Request.{Service}
use memmy.Service.Explicit.{lift}
use memmy.Service.Recall.Types.{RecallHit, Candidate, Visited, Scored}
use memmy.Service.Recall.Seeds.{upto}
use memmy.Service.Recall.Results.{
  cand_by_id, scored, with_node, score_one, score_all, best, co_traverse, hit_of, with_hit,
  text_or_empty, hits,
}
use memmy.Service.Recall.Pipeline.{respond}
use memmy.Service.Recall.Route.{IsRoute, Reached}
use memmy.Service.Recall.Reach.{bind_result}

-- `sort.Slice` and a `range` loop rearrange: neither adds an element that was not there.
pub record IsRearranging (s : Service) : Type 1 where
  pub sort_slice-All :
      {A : Type 0} (P : A → Type 0) (less : A → A → Bool) (xs : List A)
      → All P xs
      → All P (s.sort_slice less xs)
  pub visiting-All : {A : Type 0} (P : A → Type 0) (xs : List A) → All P xs → All P (s.visiting xs)

module _ {A : Type 0} where
  -- What is known of a result that is no error.
  abbrev pub Fine : (A → Type 0) → Result A → Type 0
  Fine P (ok a) = P a
  Fine P (err e) = Unit

module _ {A : Type 0} where
  length-take : (n : ℕ) (xs : List A) → length (take n xs) ≤ n
  length-take zero xs = omega arith
  length-take (suc n) [] = omega arith
  length-take (suc n) (x ∷ xs) = omega (arith, length-take n xs)

  All-take : (P : A → Type 0) (n : ℕ) (xs : List A) → All P xs → All P (take n xs)
  All-take P zero xs h = tt
  All-take P (suc n) [] h = tt
  All-take P (suc n) (x ∷ xs) h = (h.0, All-take P n xs h.1)

  upto-Fine :
      (P : A → Type 0) (k : ℤ) (xs : List A)
      → All P xs
      → Fine (λ ys. All P ys × (length ys ≤ pos_part k)) (upto k xs)
  upto-Fine P (pos n) xs h = (All-take P n xs h, length-take n xs)
  upto-Fine P (negsuc n) xs h = tt

module _ (F : Type 0) (k hops : ℤ) where
  -- A hit comes with a path of as many steps as its depth says, and no more than there are hops.
  abbrev pub Delivered : List String → String → ℕ → Type 0
  Delivered path id depth = (seed : String) × IsRoute path seed id depth × (depth ≤ pos_part hops)

  abbrev pub IsHit : RecallHit F → Type 0
  IsHit h = Delivered h.path h.node_id h.score_breakdown.depth

  -- The answer is there, is not longer than `k`, and has such hits only.
  abbrev pub Answered : Result (Option (List (RecallHit F))) → Type 0
  Answered (ok none) = ⊥
  Answered (ok (some hs)) = All IsHit hs × (length hs ≤ pos_part k)
  Answered (err e) = Unit

module _ (s : Service) (p : IsRearranging s) (tenant : String) (k hops : ℤ) where
  open s use {float, database, commits, cfg}
  open float use {F}
  open database use {Db}

  abbrev IsScored : Scored F → Type 0
  IsScored r = Delivered F k hops r.path r.node_id r.breakdown.depth

  abbrev Seen : String × Visited F → Type 0
  Seen = Reached s (λ id. Unit) hops

  scored-IsScored :
      (id : String) (v : Visited F) (sim weight : F)
      → Seen (id, v)
      → IsScored (scored s id v sim weight)
  unfolding scored
  scored-IsScored id v sim weight (u, route, bound) = (v.seed_id, route, bound)

  with_node-Fine :
      (id : String) (v : Visited F) (out : List (Scored F)) (r : Result (Node F)) (w : Store Db)
      → Seen (id, v)
      → All IsScored out
      → Fine (All IsScored) (with_node s id v out r w).0
  with_node-Fine id v out (ok n) w seen h =
      All-append IsScored out _ h (scored-IsScored id v _ _ seen, tt)
  with_node-Fine id v out (err not_found) w seen h = h
  with_node-Fine id v out (err backend) w seen h = tt
  with_node-Fine id v out (err (message m)) w seen h = tt
  with_node-Fine id v out (err (tenant_invalid e)) w seen h = tt

  score_one-Fine :
      (id : String) (v : Visited F) (out : List (Scored F)) (c : Option (Candidate F))
      (w : Store Db)
      → Seen (id, v)
      → All IsScored out
      → Fine (All IsScored) (score_one s tenant id v out c w).0
  score_one-Fine id v out (some c) w seen h =
      All-append IsScored out _ h (scored-IsScored id v _ _ seen, tt)
  score_one-Fine id v out none w seen h =
      with_node-Fine id v out (get_node float database commits tenant id w).0
        (get_node float database commits tenant id w).1 seen h

  score_all-Fine :
      (cands : Dict (Candidate F)) (vs : List (String × Visited F)) (out : List (Scored F))
      (w : Store Db)
      → All Seen vs
      → All IsScored out
      → Fine (All IsScored) (score_all s tenant cands vs out w).0
  unfolding score_all
  score_all-Fine cands [] out w seen h = h
  score_all-Fine cands ((id, v) ∷ vs) out w (seen, more) h =
      bind_result (Fine (All IsScored)) (Fine (All IsScored))
        (score_one s tenant id v out (get id cands)) (score_all s tenant cands vs) w
        (score_one-Fine id v out (get id cands) w seen h) (λ e. tt)
        (λ out' w1 h'. score_all-Fine cands vs out' w1 more h')

  abbrev HitsUpto : ℕ → List (RecallHit F) → Type 0
  HitsUpto n hs = All (IsHit F k hops) hs × (length hs ≤ n)

  hit_of-IsHit :
      (r : Scored F) (n : Node F) (source : List ℕ)
      → IsScored r
      → IsHit F k hops (hit_of s r n source)
  unfolding hit_of
  hit_of-IsHit r n source h = h

  with_hit-Fine :
      (r : Scored F) (out : List (RecallHit F)) (n : Result (Node F)) (w : Store Db) (len : ℕ)
      → IsScored r
      → HitsUpto len out
      → Fine (HitsUpto (suc len)) (with_hit s tenant r out n w).0
  with_hit-Fine r out (ok n) w len h (hs, short) = (
    All-append (IsHit F k hops) out _ hs (hit_of-IsHit r n _ h, tt),
    omega (
      arith,
      length-append out (
          hit_of s r n
            (text_or_empty s (get_message float database s.json commits tenant n.source_msg_id w).0)
          ∷ []),
      short,
    ),
  )
  with_hit-Fine r out (err not_found) w len h (hs, short) = (hs, omega (arith, short))
  with_hit-Fine r out (err backend) w len h hs = tt
  with_hit-Fine r out (err (message m)) w len h hs = tt
  with_hit-Fine r out (err (tenant_invalid e)) w len h hs = tt

  hits-Fine :
      (rs : List (Scored F)) (out : List (RecallHit F)) (w : Store Db) (len : ℕ)
      → All IsScored rs
      → HitsUpto len out
      → Fine (HitsUpto (len + length rs)) (hits s tenant rs out w).0
  unfolding hits
  hits-Fine [] out w len all (hs, short) = (hs, omega (arith, short))
  hits-Fine (r ∷ rs) out w len (h, all) hs =
      let m = attempt (get_node float database commits tenant r.node_id) in
      bind_result (λ n. Unit) (Fine (HitsUpto (len + suc (length rs)))) m
        (λ n. with_hit s tenant r out n >>= hits s tenant rs) w tt (λ e. tt)
        (λ n w1 u.
          bind_result (Fine (HitsUpto (suc len))) (Fine (HitsUpto (len + suc (length rs))))
            (with_hit s tenant r out n) (hits s tenant rs) w1 (with_hit-Fine r out n w1 len h hs)
            (λ e. tt)
            (λ out' w2 hs'.
              subst (λ n. Fine (HitsUpto n) (hits s tenant rs out' w2).0) (omega arith)
                (hits-Fine rs out' w2 (suc len) all hs')))

  best-Fine :
      (results : List (Scored F))
      → All IsScored results
      → Fine (λ top. All IsScored top × (length top ≤ pos_part k)) (best s k results)
  unfolding best
  best-Fine results all = upto-Fine IsScored k _ (p.sort_slice-All IsScored _ results all)

  pub respond-Answered :
      (cands : List (Candidate F)) (visit : Dict (Visited F)) (w : Store Db)
      → All Seen visit
      → Answered F k hops (respond s tenant k cands (some visit) w).0
  respond-Answered cands visit w seen =
      bind_result (Fine (All IsScored)) (Answered F k hops)
        (score_all s tenant (cand_by_id s cands []) (s.visiting visit) []) _ w
        (score_all-Fine (cand_by_id s cands []) (s.visiting visit) [] w
          (p.visiting-All Seen visit seen) tt)
        (λ e. tt)
        (λ results w1 all.
          bind_result (Fine (λ top. All IsScored top × (length top ≤ pos_part k)))
            (Answered F k hops) (lift s (best s k results)) _ w1 (best-Fine results all) (λ e. tt)
            (λ top w2 (some_, short).
              bind_result (λ r. Unit) (Answered F k hops) (co_traverse s tenant top) _ w2 tt
                (λ e. tt)
                (λ u w3 v.
                  bind_result (Fine (HitsUpto (0 + length top))) (Answered F k hops)
                    (hits s tenant top []) (λ out. pure (some out)) w3
                    (hits-Fine top [] w3 0 some_ (tt, omega arith)) (λ e. tt)
                    (λ out w4 (hs, len). (hs, omega (arith, len, short))))))
