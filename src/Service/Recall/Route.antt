-- ===== src/Service/Recall/Route.antt =====
-- The paths that the search of `Recall` records.
use memmy.Prelude.{
  ℕ, ◌+◌, ◌≡◌, ◌≤◌, refl, ap, ◌∙◌, arith, String, str_eq, eq_iff, true, Option, none, some, List,
  [], ◌∷◌, ◌++◌, All, All-append, append_assoc, length, length-append, Bool-cases, inl, inr,
}
use memmy.Prelude.Int.{ℤ, pos, negsuc, int_ltb, pos_part}
use memmy.Prelude.Dict.{Dict, get, put}
use memmy.Types.{MemoryEdge}
use memmy.Service.Request.{Service}
use memmy.Service.Recall.Types.{Visited, Frontier}
use memmy.Service.Recall.Expand.{Search, contribution, is_known, add_found, frontier_at, follow}

abbrev pub first : List String → Option String
first [] = none
first (x ∷ xs) = some x

abbrev pub last : List String → Option String
last [] = none
last (x ∷ []) = some x
last (x ∷ y ∷ xs) = last (y ∷ xs)

first-append :
    (p : List String) (seed to : String) → first p ≡ some seed → first (p ++ to ∷ []) ≡ some seed
first-append [] seed to e = absurd (cc)
first-append (x ∷ p) seed to e = e

last-append : (p : List String) (to : String) → last (p ++ to ∷ []) ≡ some to
last-append [] to = refl
last-append (x ∷ []) to = refl
last-append (x ∷ y ∷ p) to = last-append (y ∷ p) to

-- A path of `depth` steps from the seed to the node.
pub record IsRoute (path : List String) (seed node : String) (depth : ℕ) : Type 0 where
  pub from_seed : first path ≡ some seed
  pub to_node : last path ≡ some node
  pub steps : length path ≡ depth + 1

longer :
    (p : List String) (seed node to : String) (d : ℕ)
    → IsRoute p seed node d
    → IsRoute (p ++ to ∷ []) seed to (d + 1)
longer p seed node to d r = record {
  from_seed = first-append p seed to r.from_seed;
  to_node = last-append p to;
  steps = length-append p (to ∷ []) ∙ omega (arith, r.steps);
}

module _ {V : Type 0} (P : String × V → Type 0) where
  pub put-All : (k : String) (v : V) (m : Dict V) → All P m → P (k, v) → All P (put k v m)
  unfolding put
  put-All k v [] h p = (p, tt)
  put-All k v ((j, w) ∷ m) h p = elim (Bool-cases (str_eq j k)) [
    | inl e ↦ rw e (rw ((eq_iff j k).0 e) p, h.1)
    | inr e ↦ rw e (h.0, put-All k v m h.1 p)
  ]

module _ (s : Service) (S : String → Type 0) (hops : ℤ) where
  open s use {float}
  open float use {F}

  -- A path that starts at a seed and has no more steps than there are hops.
  abbrev pub Reached : String × Visited F → Type 0
  Reached (id, v) =
      S v.seed_id × IsRoute v.best_path v.seed_id id v.depth × (v.depth ≤ pos_part hops)

  abbrev pub Waiting : Frontier F → Type 0
  Waiting f = S f.seed_id × IsRoute f.path f.seed_id f.node_id f.depth × (f.depth ≤ pos_part hops)

  -- The queue grows at its end, by nodes one step further.
  pub record Grown (d : ℕ) (queue : List (Frontier F)) (st : Search s) : Type 0 where
    pub visit_reached : All Reached st.0
    pub new : List (Frontier F)
    pub queue_eq : st.1 ≡ queue ++ new
    pub new_waiting : All Waiting new
    pub new_depth : All (λ f. f.depth ≡ d + 1) new

  below : (d : ℕ) (h : ℤ) → int_ltb (pos d) h ≡ true → d + 1 ≤ pos_part h
  below d (pos n) e = ground arith
  below d (negsuc n) e = absurd (cc)

  add_found-Grown :
      (f : Frontier F) (to : String) (c : F) (queue : List (Frontier F)) (st : Search s)
      → Waiting f
      → int_ltb (pos f.depth) hops ≡ true
      → Grown f.depth queue st
      → Grown f.depth queue (add_found s f to c st)
  add_found-Grown f to c queue (visit, q) (seed, route, bound) near g =
      let ok_entry : S f.seed_id
          × IsRoute (f.path ++ to ∷ []) f.seed_id to (f.depth + 1)
          × (f.depth + 1 ≤ pos_part hops) =
        (seed, longer f.path f.seed_id f.node_id to f.depth route, below f.depth hops near) in
      record {
        visit_reached = put-All Reached to _ visit g.visit_reached ok_entry;
        new = g.new ++ frontier_at s f to c ∷ [];
        queue_eq =
            ap (λ l. l ++ frontier_at s f to c ∷ []) g.queue_eq
            ∙ append_assoc queue g.new (frontier_at s f to c ∷ []);
        new_waiting =
            All-append Waiting g.new (frontier_at s f to c ∷ []) g.new_waiting (ok_entry, tt);
        new_depth =
            All-append (λ f'. f'.depth ≡ f.depth + 1) g.new (frontier_at s f to c ∷ []) g.new_depth
              (refl, tt);
      }

  pub follow-Grown :
      (f : Frontier F) (queue : List (Frontier F)) (st : Search s) (e : Option (MemoryEdge F))
      → Waiting f
      → int_ltb (pos f.depth) hops ≡ true
      → Grown f.depth queue st
      → Grown f.depth queue (follow s f st e)
  unfolding follow
  follow-Grown f queue st none wait near g = g
  follow-Grown f queue st (some e) wait near g =
      elim (Bool-cases (float.le (contribution s f e) float.nought)) [
        | inl a ↦ rw a g
        | inr a ↦ elim (Bool-cases (is_known s (contribution s f e) (get e.to st.0))) [
          | inl b ↦ rw (a, b) g
          | inr b ↦ rw (a, b) (add_found-Grown f e.to (contribution s f e) queue st wait near g)
        ]
      ]
