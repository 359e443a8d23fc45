-- ===== src/Service/Recall/Seeds.antt =====
-- The third to the fifth phase of `Recall`: candidates, seeds and co-retrieval.
use memmy.Prelude.{String, true, List, [], ◌∷◌, ◌++◌, if◌then◌else◌, take}
use memmy.Prelude.Int.{ℤ, pos, negsuc}
use memmy.Types.{Node, co_retrieval}
use memmy.Storage.Session.{Result, ok, err, not_found, message, pure, throw, attempt, ◌>>=◌, ◌>>◌}
use memmy.Storage.Vector.{VectorHit}
use memmy.Service.Config.{sim_score}
use memmy.Service.Request.{Service, Action}
use memmy.Service.Association.{apply_node_decay_reinforce, apply_edge_decay_reinforce}
use memmy.Service.Recall.Types.{Candidate}

-- Go's `xs[:k]` for a `k` of at most the length. A negative bound panics: no error of the code.
abbrev pub upto : {A : Type 0} → ℤ → List A → Result (List A)
upto (pos n) xs = ok (take n xs)
upto (negsuc n) xs = err (message "slice bounds out of range")

module _ (s : Service) where
  open s use {float, cfg}
  open float use {F, mul, min, pow, le, lt, nought}

  unfoldable pub candidate_of : VectorHit float → Node F → Candidate F
  unfolding sim_score
  candidate_of h n = record {
    node_id = h.node_id;
    sim = h.sim;
    node_weight = n.weight;
    combined_score = mul (pow (sim_score float h.sim) cfg.sim_alpha) (pow n.weight cfg.weight_beta);
    node = n;
    alive = true;
  }

  -- A hit whose node is gone is passed over.
  abbrev pub with_candidate :
      VectorHit float → List (Candidate F) → Result (Node F) → Action s (List (Candidate F))
  with_candidate h cands (ok n) = pure (cands ++ candidate_of h n ∷ [])
  with_candidate h cands (err not_found) = pure cands
  with_candidate h cands (err e) = throw e

  unfoldable pub candidates :
      String → List (VectorHit float) → List (Candidate F) → Action s (List (Candidate F))
  unfolding candidate_of
  candidates tenant [] cands = pure cands
  candidates tenant (h ∷ hs) cands = do
    r ← attempt (apply_node_decay_reinforce s tenant h.node_id cfg.node_delta)
    cands' ← with_candidate h cands r
    candidates tenant hs cands'

  -- The best first, and the first `k` of them.
  unfoldable pub seeds_of : ℤ → List (Candidate F) → Result (List (Candidate F))
  seeds_of k cands = upto k (s.sort_slice (λ a b. lt b.combined_score a.combined_score) cands)

  -- The body of the two loops over the pairs: an edge in both directions.
  unfoldable pub co_retrieve_pair : String → Candidate F → Candidate F → Action s (Unit {0})
  unfolding sim_score
  co_retrieve_pair tenant a b =
      let delta =
        mul cfg.edge_co_retrieval_base (min (sim_score float a.sim) (sim_score float b.sim)) in
      if le delta nought
      then pure tt
      else (apply_edge_decay_reinforce s tenant a.node_id b.node_id co_retrieval delta true >>= λ e.
          apply_edge_decay_reinforce s tenant b.node_id a.node_id co_retrieval delta true >>= λ e'.
          pure tt)

  unfoldable pub co_retrieve_with : String → Candidate F → List (Candidate F) → Action s (Unit {0})
  unfolding co_retrieve_pair
  co_retrieve_with tenant a [] = pure tt
  co_retrieve_with tenant a (b ∷ bs) = co_retrieve_pair tenant a b >> co_retrieve_with tenant a bs

  unfoldable pub co_retrieve : String → List (Candidate F) → Action s (Unit {0})
  unfolding co_retrieve_with
  co_retrieve tenant [] = pure tt
  co_retrieve tenant (c ∷ cs) = co_retrieve_with tenant c cs >> co_retrieve tenant cs
