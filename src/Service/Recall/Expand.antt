-- ===== src/Service/Recall/Expand.antt =====
-- The sixth phase of `Recall`: the expansion over the edges, from the seeds.
use memmy.Prelude.{
  ℕ, zero, suc, ◌+◌, String, Bool, true, false, not, Option, none, some, List, [], ◌∷◌, ◌++◌,
  if◌then◌else◌,
}
use memmy.Prelude.Int.{ℤ, pos, int_ltb}
use memmy.Prelude.Dict.{Dict, get, put}
use memmy.Types.{MemoryEdge}
use memmy.Storage.Session.{pure, ◌>>=◌}
use memmy.Storage.Graph.Neighbor.{neighbors}
use memmy.Service.Request.{Service, Action}
use memmy.Service.Association.{read_decayed_edge}
use memmy.Service.Recall.Types.{Candidate, Visited, Frontier}

module _ (s : Service) where
  open s use {float, database, commits, cfg}
  open float use {F, mul, div, pow, le, nought, of_int}

  -- `visit` and `queue`.
  abbrev pub Search : Type 0
  Search = Dict (Visited F) × List (Frontier F)

  abbrev pub start : Search → List (Candidate F) → Search
  start st [] = st
  start (visit, queue) (sd ∷ seeds) =
      start
        (
          put sd.node_id
              (record {
                best_path = sd.node_id ∷ [];
                best_score = sd.combined_score;
                seed_id = sd.node_id;
                depth = 0;
                via_edge = false;
              })
              visit,
          queue
              ++ record {
                node_id = sd.node_id;
                seed_id = sd.node_id;
                path_score = sd.combined_score;
                path = sd.node_id ∷ [];
                depth = 0;
              }
                ∷ [],
        )
        seeds

  abbrev pub contribution : Frontier F → MemoryEdge F → F
  contribution f e =
      div (mul f.path_score e.weight) (pow cfg.depth_penalty_factor (of_int (pos (f.depth + 1))))

  -- `seen && existing.bestScore >= contribution`.
  abbrev pub is_known : F → Option (Visited F) → Bool
  is_known c none = false
  is_known c (some v) = le c v.best_score

  abbrev pub frontier_at : Frontier F → String → F → Frontier F
  frontier_at f to c = record {
    node_id = to;
    seed_id = f.seed_id;
    path_score = c;
    path = f.path ++ to ∷ [];
    depth = f.depth + 1;
  }

  abbrev pub add_found : Frontier F → String → F → Search → Search
  add_found f to c (visit, queue) = (
    put to
        (record {
          best_path = f.path ++ to ∷ [];
          best_score = c;
          seed_id = f.seed_id;
          depth = f.depth + 1;
          via_edge = true;
        })
        visit,
    queue ++ frontier_at f to c ∷ [],
  )

  -- What an edge does to the search, which is nothing where it is pruned or not there any more.
  unfoldable pub follow : Frontier F → Search → Option (MemoryEdge F) → Search
  unfolding get put
  follow f st none = st
  follow f st (some e) =
      if le (contribution f e) nought
      then st
      else if is_known (contribution f e) (get e.to st.0)
      then st
      else add_found f e.to (contribution f e) st

  unfoldable pub visit_all : String → Frontier F → List (MemoryEdge F) → Search → Action s Search
  unfolding follow
  visit_all tenant f [] st = pure st
  visit_all tenant f (ne ∷ nes) st = do
    e ← read_decayed_edge s tenant ne.from ne.to
    visit_all tenant f nes (follow f st e)

  -- The loop over the queue, on fuel: a round takes one unit.
  unfoldable pub expand_loop : ℕ → String → ℤ → Search → Action s (Option (Dict (Visited F)))
  unfolding visit_all
  expand_loop fuel tenant hops (visit, []) = pure (some visit)
  expand_loop zero tenant hops (visit, f ∷ queue) = pure none
  expand_loop (suc fuel) tenant hops (visit, f ∷ queue) =
      let rest = expand_loop fuel tenant hops in
      if not (int_ltb (pos f.depth) hops)
      then rest (visit, queue)
      else (neighbors float database commits tenant f.node_id >>= λ nes.
          visit_all tenant f nes (visit, queue) >>= rest)

  unfoldable pub expand : ℕ → String → ℤ → List (Candidate F) → Action s (Option (Dict (Visited F)))
  unfolding expand_loop put
  expand fuel tenant hops seeds = expand_loop fuel tenant hops (start ([], []) seeds)
