-- ===== src/Storage/Counters/Rows.antt =====
-- How the rows that a statement writes change a count.
use memmy.Prelude.{
  ℕ, ◌+◌, ◌≤◌, ◌≡◌, refl, sym, String, str_eq, eq_iff, Bool, true, none, some, List, [], ◌∷◌,
  if◌then◌else◌, length, arith, Bool-cases, inl, inr,
}
use memmy.Types.{Node}
use memmy.Storage.Rows.{
  Rel, EdgeProps, rel_type_eq, is_node, find_node, set_node_row, merge_node_row, delete_node_row,
  is_between, is_incident, matching, removing, merge_rel_row, set_rel_rows,
}
use memmy.Storage.Counters.{node_in, rel_in}

abbrev pub count : {A : Type 0} → (A → Bool) → List A → ℕ
count q rs = length (matching q rs)

module _ {F : Type 0} where
  -- Every row that `p` accepts is the tenant's.
  abbrev pub Within : String → (Rel F → Bool) → Type 0
  Within t p = (r : Rel F) → p r ≡ true → rel_in t r ≡ true

  -- A tenant's count after the rows that `p` accepts are gone.
  pub count-removing :
      (t t' : String) (p : Rel F → Bool) (rs : List (Rel F))
      → Within t p
      → count (rel_in t') (removing p rs) + (if str_eq t t' then count p rs else 0)
        ≡ count (rel_in t') rs
  count-removing t t' p [] h = ground arith
  count-removing t t' p (r ∷ rs) h =
      ground
        (arith, count-removing t t' p rs h, h r, eq_iff r.tenant t, eq_iff t t', eq_iff r.tenant t')

  pub count-removing-le :
      (q p : Rel F → Bool) (rs : List (Rel F)) → count q (removing p rs) ≤ count q rs
  count-removing-le q p [] = omega arith
  count-removing-le q p (r ∷ rs) = ground (arith, count-removing-le q p rs)

  pub matching-removing : (p : Rel F → Bool) (rs : List (Rel F)) → matching p (removing p rs) ≡ []
  matching-removing p [] = refl
  matching-removing p (r ∷ rs) = ground (arith, matching-removing p rs)

  pub is_between-Within : (t a b : String) → Within t (is_between t a b)
  unfolding is_between
  is_between-Within t a b r h = ground arith

  pub is_incident-Within : (t i : String) → Within t (is_incident t i)
  unfolding is_incident
  is_incident-Within t i r h = ground arith

  -- `q` looks at the tenant and the endpoints only.
  abbrev pub OnKey : (Rel F → Bool) → Type 0
  OnKey q = (x y : Rel F) → x.tenant ≡ y.tenant → x.from ≡ y.from → x.to ≡ y.to → q x ≡ q y

  pub rel_in-OnKey : (t : String) → OnKey (rel_in t)
  rel_in-OnKey t x y e _ _ = rw e

  pub is_between-OnKey : (t a b : String) → OnKey (is_between t a b)
  unfolding is_between
  is_between-OnKey t a b x y e1 e2 e3 = rw (e1, e2, e3)

  pub is_between-key :
      (t a b : String) (r : Rel F)
      → is_between t a b r ≡ true
      → (r.tenant ≡ t) × (r.from ≡ a) × (r.to ≡ b)
  unfolding is_between
  is_between-key t a b r h = (
    ground (arith, eq_iff r.tenant t),
    ground (arith, eq_iff r.from a),
    ground (arith, eq_iff r.to b),
  )

  pub count-set_rel_rows :
      (t a b : String) (props : EdgeProps F) (q : Rel F → Bool) (rs : List (Rel F))
      → OnKey q
      → count q (set_rel_rows t a b props rs) ≡ count q rs
  unfolding set_rel_rows
  count-set_rel_rows t a b props q [] k = refl
  count-set_rel_rows t a b props q (r ∷ rs) k = ground (
    arith,
    count-set_rel_rows t a b props q rs k,
    k (record r { props = props }) r refl refl refl,
  )

  -- `MERGE` between a pair with no edge adds one.
  pub count-merge_new :
      (new : Rel F) (q : Rel F → Bool) (rs : List (Rel F))
      → matching (is_between new.tenant new.from new.to) rs ≡ []
      → count q (merge_rel_row new rs) ≡ count q rs + (if q new then 1 else 0)
  unfolding merge_rel_row
  count-merge_new new q [] h = ground arith
  count-merge_new new q (r ∷ rs) h = ground (arith, count-merge_new new q rs)

  -- `MERGE` of the type that the only edge of the pair has replaces it.
  pub count-merge_same :
      (new r : Rel F) (q : Rel F → Bool) (rs : List (Rel F))
      → OnKey q
      → matching (is_between new.tenant new.from new.to) rs ≡ r ∷ []
      → rel_type_eq r.rel_type new.rel_type ≡ true
      → count q (merge_rel_row new rs) ≡ count q rs
  unfolding merge_rel_row
  count-merge_same new r q [] k h e = cc
  count-merge_same new r q (s ∷ rs) k h e =
      elim (Bool-cases (is_between new.tenant new.from new.to s)) [
        | inl here ↦
            let (e1, e2, e3) = is_between-key new.tenant new.from new.to s here in
            ground (arith, k new s (sym e1) (sym e2) (sym e3))
        | inr there ↦ ground (arith, count-merge_same new r q rs k)
      ]

module _ {F : Type 0} where
  is_node-tenant : (t i : String) (n : Node F) → is_node t i n ≡ true → str_eq n.tenant_id t ≡ true
  unfolding is_node
  is_node-tenant t i n h = ground arith

  pub count-merge_node_new :
      (new : Node F) (t : String) (ns : List (Node F))
      → find_node new.tenant_id new.id ns ≡ none
      → count (node_in t) (merge_node_row new ns)
        ≡ count (node_in t) ns + (if str_eq new.tenant_id t then 1 else 0)
  unfolding merge_node_row find_node
  count-merge_node_new new t [] h = ground arith
  count-merge_node_new new t (n ∷ ns) h = ground (arith, count-merge_node_new new t ns)

  pub count-merge_node_same :
      (new old : Node F) (t : String) (ns : List (Node F))
      → find_node new.tenant_id new.id ns ≡ some old
      → count (node_in t) (merge_node_row new ns) ≡ count (node_in t) ns
  unfolding merge_node_row find_node
  count-merge_node_same new old t [] h = cc
  count-merge_node_same new old t (n ∷ ns) h = ground (
    arith,
    count-merge_node_same new old t ns,
    is_node-tenant new.tenant_id new.id n,
    eq_iff n.tenant_id new.tenant_id,
  )

  pub count-set_node :
      (t0 i : String) (new : Node F) (t : String) (ns : List (Node F))
      → new.tenant_id ≡ t0
      → count (node_in t) (set_node_row t0 i new ns) ≡ count (node_in t) ns
  unfolding set_node_row
  count-set_node t0 i new t [] e = refl
  count-set_node t0 i new t (n ∷ ns) e = ground (
    arith,
    count-set_node t0 i new t ns e,
    is_node-tenant t0 i n,
    eq_iff n.tenant_id t0,
    eq_iff new.tenant_id t0,
  )

  pub count-delete_node :
      (t0 i t : String) (old : Node F) (ns : List (Node F))
      → find_node t0 i ns ≡ some old
      → count (node_in t) (delete_node_row t0 i ns) + (if str_eq t0 t then 1 else 0)
        ≡ count (node_in t) ns
  unfolding delete_node_row find_node
  count-delete_node t0 i t old [] h = cc
  count-delete_node t0 i t old (n ∷ ns) h = ground (
    arith,
    count-delete_node t0 i t old ns,
    is_node-tenant t0 i n,
    eq_iff n.tenant_id t0,
    eq_iff n.tenant_id t,
    eq_iff t0 t,
  )

  -- The node that a match finds has the key of the match.
  pub find_node-tenant :
      (t i : String) (n : Node F) (ns : List (Node F)) → find_node t i ns ≡ some n → n.tenant_id ≡ t
  unfolding find_node
  find_node-tenant t i n [] h = cc
  find_node-tenant t i n (m ∷ ns) h =
      ground (arith, find_node-tenant t i n ns, is_node-tenant t i m, eq_iff m.tenant_id t)
