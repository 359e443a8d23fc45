-- ===== src/Service/Recall/Reach.antt =====
-- The search of `Recall` ends, and what it visits is reached from a seed.
use memmy.Prelude.{
  ℕ, zero, suc, ◌+◌, ◌≡◌, refl, sym, arith, String, true, Option, none, some, List, [], ◌∷◌, ◌++◌,
  All, All-append, append_nil, append_assoc, Bool-cases, inl, inr,
}
use mathlib.Core.Path.{subst}
use memmy.Prelude.Int.{ℤ, pos, int_ltb, pos_part}
use memmy.Prelude.Dict.{Dict}
use memmy.Types.{MemoryEdge}
use memmy.Storage.Session.{Error, Result, ok, err, Store, M, ◌>>=◌, continue}
use memmy.Storage.Graph.Neighbor.{neighbors}
use memmy.Service.Request.{Service}
use memmy.Service.Association.{read_decayed_edge}
use memmy.Service.Recall.Types.{Candidate, Visited, Frontier}
use memmy.Service.Recall.Expand.{Search, start, follow, visit_all, expand_loop, expand}
use memmy.Service.Recall.Route.{IsRoute, Reached, Waiting, Grown, put-All, follow-Grown}

module _ {Db A B : Type 0} where
  -- A failure of the first action is a failure of both; the second may use what is known of it.
  pub bind_result :
      (Q : Result A → Type 0) (P : Result B → Type 0) (m : M Db A) (g : A → M Db B) (w : Store Db)
      → Q (m w).0
      → ((e : Error) → P (err e))
      → ((a : A) (w1 : Store Db) → Q (ok a) → P (g a w1).0)
      → P ((m >>= g) w).0
  bind_result Q P m g w known failed go = split (m w).0 (m w).1 known
    where
      split : (r : Result A) (w1 : Store Db) → Q r → P (continue g r w1).0
      split (ok a) w1 q = go a w1 q
      split (err x) w1 q = failed x

  -- Enough fuel for the second action is enough for both. It may use what is known of the first.
  pub bind_fuel :
      (Q : Result A → Type 0) (P : Result B → Type 0) (m : M Db A) (g : ℕ → A → M Db B)
      (w : Store Db)
      → Q (m w).0
      → ((e : Error) → P (err e))
      → ((a : A) (w1 : Store Db) → Q (ok a) → (n : ℕ) × P (g n a w1).0)
      → (n : ℕ) × P ((m >>= g n) w).0
  bind_fuel Q P m g w known failed go = split (m w).0 (m w).1 known
    where
      split : (r : Result A) (w1 : Store Db) → Q r → (n : ℕ) × P (continue (g n) r w1).0
      split (ok a) w1 q = go a w1 q
      split (err x) w1 q = (0, failed x)

module _ (s : Service) (tenant : String) (S : String → Type 0) (hops : ℤ) where
  open s use {float, database, commits}
  open float use {F}
  open database use {Db}

  -- The loop has not run out of fuel.
  abbrev pub Ended : Result (Option (Dict (Visited F))) → Type 0
  Ended (ok none) = ⊥
  Ended (ok (some visit)) = All (Reached s S hops) visit
  Ended (err e) = Unit

  abbrev Followed : ℕ → List (Frontier F) → Result (Search s) → Type 0
  Followed d queue (ok st) = Grown s S hops d queue st
  Followed d queue (err e) = Unit

  visit_all-Followed :
      (f : Frontier F) (queue : List (Frontier F)) (nes : List (MemoryEdge F)) (st : Search s)
      (w : Store Db)
      → Waiting s S hops f
      → int_ltb (pos f.depth) hops ≡ true
      → Grown s S hops f.depth queue st
      → Followed f.depth queue (visit_all s tenant f nes st w).0
  unfolding visit_all
  visit_all-Followed f queue [] st w wait near g = g
  visit_all-Followed f queue (ne ∷ nes) st w wait near g =
      bind_result (λ r. Unit) (Followed f.depth queue) (read_decayed_edge s tenant ne.from ne.to)
        (λ e. visit_all s tenant f nes (follow s f st e)) w tt (λ x. tt)
        (λ e w1 u.
          visit_all-Followed f queue nes (follow s f st e) w1 wait near
            (follow-Grown s S hops f queue st e wait near g))

  -- The queue holds nodes of one depth, and behind them nodes one step further.
  abbrev Level : ℕ → List (Frontier F) → Type 0
  Level d queue = All (Waiting s S hops) queue × All (λ f. f.depth ≡ d) queue

  Finishes : Dict (Visited F) → List (Frontier F) → Store Db → Type 0
  Finishes visit queue w = (n : ℕ) × Ended (expand_loop s n tenant hops (visit, queue) w).0

  here :
      (d : ℕ) (queue : List (Frontier F)) (visit : Dict (Visited F))
      → All (Reached s S hops) visit
      → Grown s S hops d queue (visit, queue)
  here d queue visit seen = record {
    visit_reached = seen;
    new = [];
    queue_eq = sym (append_nil queue);
    new_waiting = tt;
    new_depth = tt;
  }

  -- One round, where the queue that it leaves is handled.
  round :
      (f : Frontier F) (queue : List (Frontier F)) (visit : Dict (Visited F)) (w : Store Db)
      → Waiting s S hops f
      → All (Reached s S hops) visit
      → ((new : List (Frontier F)) (visit' : Dict (Visited F)) (w' : Store Db)
          → Level (f.depth + 1) new
          → All (Reached s S hops) visit'
          → Finishes visit' (queue ++ new) w')
      → Finishes visit (f ∷ queue) w
  unfolding expand_loop Finishes
  round f queue visit w wait seen rest = elim (Bool-cases (int_ltb (pos f.depth) hops)) [
    | inl near ↦
        let (n, ended) =
          bind_fuel (λ r. Unit) Ended (neighbors float database commits tenant f.node_id)
            (λ n nes. visit_all s tenant f nes (visit, queue) >>= expand_loop s n tenant hops) w tt
            (λ e. tt)
            (λ nes w1 u.
              bind_fuel (Followed f.depth queue) Ended (visit_all s tenant f nes (visit, queue))
                (λ n. expand_loop s n tenant hops) w1
                (visit_all-Followed f queue nes (visit, queue) w1 wait near
                  (here f.depth queue visit seen))
                (λ e. tt) (λ st w2 g. after st w2 g)) in
        (suc n, rw near ended)
    | inr far ↦
        let (n, ended) : Finishes visit queue w =
          rw (← append_nil queue) (rest [] visit w (tt, tt) seen) in
        (suc n, rw far ended)
  ]
    where
      after :
          (st : Search s) (w2 : Store Db) → Grown s S hops f.depth queue st → Finishes st.0 st.1 w2
      after st w2 g =
          rw g.queue_eq (rest g.new st.0 w2 (g.new_waiting, g.new_depth) g.visit_reached)

  -- By induction on the number of hops that are left, and on the nodes of the current depth.
  finish :
      (left : ℕ) (d : ℕ) (queue later : List (Frontier F)) (visit : Dict (Visited F)) (w : Store Db)
      → d + left ≡ pos_part hops
      → Level d queue
      → Level (d + 1) later
      → All (Reached s S hops) visit
      → Finishes visit (queue ++ later) w
  unfolding expand_loop Finishes
  finish left d [] [] visit w e q l seen = (0, seen)
  finish zero d [] (f ∷ later) visit w e q l seen = absurd (omega (arith, e, l.0.0.2, l.1.0))
  finish (suc left) d [] (f ∷ later) visit w e q l seen =
      subst (λ fs. Finishes visit fs w) (append_nil (f ∷ later))
        (finish left (d + 1) (f ∷ later) [] visit w (omega (arith, e)) l (tt, tt) seen)
  finish left d (f ∷ queue) later visit w e q l seen =
      round f (queue ++ later) visit w q.0.0 seen (λ new visit' w' n seen'.
        subst (λ fs. Finishes visit' fs w') (sym (append_assoc queue later new))
          (finish left d queue (later ++ new) visit' w' e (q.0.1, q.1.1)
            (
              All-append (Waiting s S hops) later new l.0 n.0,
              All-append (λ g. g.depth ≡ d + 1) later new l.1 (rw (sym q.1.0) n.1),
            )
            seen'))

  start-Level :
      (seeds : List (Candidate F)) (visit : Dict (Visited F)) (queue : List (Frontier F))
      → All (λ c. S c.node_id) seeds
      → All (Reached s S hops) visit
      → Level 0 queue
      → All (Reached s S hops) (start s (visit, queue) seeds).0
        × Level 0 (start s (visit, queue) seeds).1
  start-Level [] visit queue h seen l = (seen, l)
  start-Level (sd ∷ seeds) visit queue (h, hs) seen l =
      let at_seed : IsRoute (sd.node_id ∷ []) sd.node_id sd.node_id 0 = record {
        from_seed = refl;
        to_node = refl;
        steps = refl;
      } in
      start-Level seeds _ _ hs
        (put-All (Reached s S hops) sd.node_id _ visit seen (h, at_seed, omega arith))
        (
          All-append (Waiting s S hops) queue _ l.0 ((h, at_seed, omega arith), tt),
          All-append (λ f. f.depth ≡ 0) queue _ l.1 (refl, tt),
        )

  -- The expansion of `Recall` ends: whatever is stored, and however its transactions end, there is
  -- fuel with which it does not run out. Unless it reports an error, every node that it has visited
  -- comes with a path from a seed to it, with as many steps as its depth says, and no more than
  -- there are hops. (`S` is any property of the seeds' identifiers.)
  pub expand_total :
      (seeds : List (Candidate F)) (w : Store Db)
      → All (λ c. S c.node_id) seeds
      → (n : ℕ) × Ended (expand s n tenant hops seeds w).0
  unfolding expand Finishes
  expand_total seeds w h =
      let (visit, queue) = start s ([], []) seeds in
      let (seen, level) = start-Level seeds [] [] h tt (tt, tt) in
      subst (λ fs. Finishes visit fs w) (append_nil queue)
        (finish (pos_part hops) 0 queue [] visit w (omega arith) level (tt, tt) seen)
