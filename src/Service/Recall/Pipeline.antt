-- ===== src/Service/Recall/Pipeline.antt =====
-- `Recall`: the phases in their order.
use memmy.Prelude.{ℕ, zero, suc, String, Option, none, some, List, [], ◌∷◌, if◌then◌else◌}
use memmy.Prelude.Int.{ℤ, pos, negsuc, int_ltb}
use memmy.Prelude.Dict.{Dict}
use memmy.Types.Instant.{positive}
use memmy.Storage.Session.{message, Result, ok, err, pure, throw, ◌>>=◌, ◌>>◌}
use memmy.Storage.Vector.{VectorHit, search}
use memmy.Service.Tenant.{is_nil}
use memmy.Service.Request.{Service, Action, retrieval_query, codes, is_blank, require_valid_tenant}
use memmy.Service.Explicit.{lift}
use memmy.Service.Recall.Types.{RecallRequest, RecallHit, Candidate, Visited}
use memmy.Service.Recall.Seeds.{candidates, seeds_of, co_retrieve}
use memmy.Service.Recall.Expand.{expand}
use memmy.Service.Recall.Results.{cand_by_id, score_all, best, co_traverse, hits}

module _ (s : Service) where
  open s use {float, database, commits, cfg}
  open float use {F}

  -- The three numbers of the request, with the defaults.
  abbrev pub or_default : ℤ → ℤ → ℤ
  or_default n default = if positive n then n else default

  unfoldable pub hops_of : ℤ → ℤ
  hops_of (pos zero) = cfg.default_hops
  hops_of (pos (suc n)) = pos (suc n)
  hops_of (negsuc n) = pos 0

  unfoldable pub oversample_of : ℤ → ℤ → ℤ
  oversample_of n k =
      let over = or_default n cfg.default_oversample in if int_ltb over k then k else over

  abbrev pub Hits : Type 0
  Hits = List (RecallHit F)

  -- The first vector of the answer of the embedder.
  abbrev pub first_vector : List (List F) → Result (List F)
  first_vector [] = err (message "service: embedder returned 0 vectors")
  first_vector (v ∷ vs) = ok v

  -- From the seventh phase on: `none` is a search that has run out of fuel.
  abbrev pub respond :
      String → ℤ → List (Candidate F) → Option (Dict (Visited F)) → Action s (Option Hits)
  respond tenant k cands none = pure none
  respond tenant k cands (some visit) = do
    results ← score_all s tenant (cand_by_id s cands []) (s.visiting visit) []
    top ← lift s (best s k results)
    co_traverse s tenant top
    out ← hits s tenant top []
    pure (some out)

  abbrev pub with_seeds :
      ℕ → String → ℤ → ℤ → List (Candidate F) → List (Candidate F) → Action s (Option Hits)
  with_seeds fuel tenant k hops cands seeds = do
    co_retrieve s tenant seeds
    visit ← expand s fuel tenant hops seeds
    respond tenant k cands visit

  abbrev pub with_candidates : ℕ → String → ℤ → ℤ → List (Candidate F) → Action s (Option Hits)
  with_candidates fuel tenant k hops cands =
      if is_nil cands
      then pure (some [])
      else (lift s (seeds_of s k cands) >>= with_seeds fuel tenant k hops cands)

  abbrev pub with_found : ℕ → String → ℤ → ℤ → List (VectorHit float) → Action s (Option Hits)
  with_found fuel tenant k hops found =
      if is_nil found
      then pure (some [])
      else (candidates s tenant found [] >>= with_candidates fuel tenant k hops)

  abbrev pub with_tenant : ℕ → RecallRequest → String → Action s (Option Hits)
  with_tenant fuel req tenant = do
    let k = or_default req.k cfg.default_k
    vectors ← lift s (s.embed retrieval_query (codes req.query ∷ []))
    vector ← lift s (first_vector vectors)
    found ←
        search float database s.dim s.flat_scan_threshold commits tenant vector
          (oversample_of req.oversample_n k)
    with_found fuel tenant k (hops_of req.hops) found

  unfoldable pub recall : ℕ → RecallRequest → Action s (Option Hits)
  unfolding hops_of oversample_of candidates seeds_of co_retrieve expand cand_by_id score_all best
      co_traverse hits is_blank require_valid_tenant
  recall fuel req =
      if is_blank req.query
      then throw (message "service: query required")
      else (lift s (require_valid_tenant s req.tenant) >>= with_tenant fuel req)
