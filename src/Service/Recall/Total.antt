-- ===== src/Service/Recall/Total.antt =====
-- `Recall` ends, with hits that the search has reached.
use memmy.Prelude.{ℕ, arith, String, Option, none, some, List, [], ◌∷◌, All, Bool-cases, inl, inr}
use memmy.Prelude.Int.{ℤ}
use memmy.Prelude.Dict.{Dict}
use memmy.Storage.Session.{ok, Store, ◌>>=◌}
use memmy.Storage.Vector.{VectorHit, search}
use memmy.Service.Request.{Service, retrieval_query, codes, is_blank, require_valid_tenant}
use memmy.Service.Explicit.{lift}
use memmy.Service.Recall.Types.{RecallRequest, Candidate, Visited}
use memmy.Service.Recall.Seeds.{candidates, seeds_of, co_retrieve}
use memmy.Service.Recall.Expand.{expand}
use memmy.Service.Recall.Pipeline.{
  or_default, hops_of, oversample_of, first_vector, respond, with_seeds, with_candidates,
  with_found, with_tenant, recall,
}
use memmy.Service.Recall.Reach.{bind_result, bind_fuel, Ended, expand_total}
use memmy.Service.Recall.Hits.{IsRearranging, Answered, respond-Answered}

module _ (s : Service) (p : IsRearranging s) (tenant : String) (k hops : ℤ) where
  open s use {float, database, commits, cfg}
  open float use {F}
  open database use {Db}

  every_seed : (seeds : List (Candidate F)) → All {0, 0} (λ c. Unit) seeds
  every_seed [] = tt
  every_seed (c ∷ cs) = (tt, every_seed cs)

  expanded-Answered :
      (cands : List (Candidate F)) (o : Option (Dict (Visited F))) (w : Store Db)
      → Ended s tenant (λ id. Unit) hops (ok o)
      → Answered F k hops (respond s tenant k cands o w).0
  expanded-Answered cands none w ended = absurd ended
  expanded-Answered cands (some visit) w seen =
      respond-Answered s p tenant k hops cands visit w seen

  with_seeds-Answered :
      (cands seeds : List (Candidate F)) (w : Store Db)
      → (n : ℕ) × Answered F k hops (with_seeds s n tenant k hops cands seeds w).0
  with_seeds-Answered cands seeds w =
      bind_fuel (λ r. Unit) (Answered F k hops) (co_retrieve s tenant seeds)
        (λ n u. expand s n tenant hops seeds >>= respond s tenant k cands) w tt (λ e. tt)
        (λ u w1 v.
          let (n, ended) = expand_total s tenant (λ id. Unit) hops seeds w1 (every_seed seeds) in
          (
            n,
            bind_result (Ended s tenant (λ id. Unit) hops) (Answered F k hops)
                (expand s n tenant hops seeds) (respond s tenant k cands) w1 ended (λ e. tt)
                (expanded-Answered cands),
          ))

  with_candidates-Answered :
      (cands : List (Candidate F)) (w : Store Db)
      → (n : ℕ) × Answered F k hops (with_candidates s n tenant k hops cands w).0
  with_candidates-Answered [] w = (0, (tt, omega arith))
  with_candidates-Answered (c ∷ cs) w =
      bind_fuel (λ r. Unit) (Answered F k hops) (lift s (seeds_of s k (c ∷ cs)))
        (λ n. with_seeds s n tenant k hops (c ∷ cs)) w tt (λ e. tt)
        (λ seeds w1 u. with_seeds-Answered (c ∷ cs) seeds w1)

  with_found-Answered :
      (found : List (VectorHit float)) (w : Store Db)
      → (n : ℕ) × Answered F k hops (with_found s n tenant k hops found w).0
  with_found-Answered [] w = (0, (tt, omega arith))
  with_found-Answered (h ∷ hs) w =
      bind_fuel (λ r. Unit) (Answered F k hops) (candidates s tenant (h ∷ hs) [])
        (λ n. with_candidates s n tenant k hops) w tt (λ e. tt)
        (λ cands w1 u. with_candidates-Answered cands w1)

module _ (s : Service) (p : IsRearranging s) (req : RecallRequest) where
  open s use {float, database, commits, cfg}
  open database use {Db}

  -- How many hits are asked for.
  abbrev pub k_of : ℤ
  k_of = or_default s req.k cfg.default_k

  with_tenant-Answered :
      (tenant : String) (w : Store Db)
      → (n : ℕ) × Answered float.F k_of (hops_of s req.hops) (with_tenant s n req tenant w).0
  with_tenant-Answered tenant w =
      let P = Answered float.F k_of (hops_of s req.hops) in
      bind_fuel (λ r. Unit) P (lift s (s.embed retrieval_query (codes req.query ∷ []))) _ w tt
        (λ e. tt)
        (λ vectors w1 u1.
          bind_fuel (λ r. Unit) P (lift s (first_vector s vectors)) _ w1 tt (λ e. tt)
            (λ vector w2 u2.
              bind_fuel (λ r. Unit) P
                (search float database s.dim s.flat_scan_threshold commits tenant vector
                  (oversample_of s req.oversample_n k_of))
                (λ n. with_found s n tenant k_of (hops_of s req.hops)) w2 tt (λ e. tt)
                (λ found w3 u3. with_found-Answered s p tenant k_of (hops_of s req.hops) found w3)))

  -- `Recall` ends: for every request and store, and however its transactions end, there is fuel
  -- with which the search does not run out. Unless `Recall` reports an error, it then returns no
  -- more hits than asked for, and each with a path to it that has as many steps as the hit's depth
  -- says and no more than there are hops. (Sorting and visiting a map add no elements.)
  pub recall_total :
      (w : Store Db) → (n : ℕ) × Answered float.F k_of (hops_of s req.hops) (recall s n req w).0
  unfolding recall
  recall_total w = elim (Bool-cases (is_blank req.query)) [
    | inl b ↦ (0, rw b tt)
    | inr b ↦
        let (n, a) =
          bind_fuel (λ r. Unit) (Answered float.F k_of (hops_of s req.hops))
            (lift s (require_valid_tenant s req.tenant)) (λ n. with_tenant s n req) w tt (λ e. tt)
            (λ tenant w1 u. with_tenant-Answered tenant w1) in
        (n, rw b a)
  ]
