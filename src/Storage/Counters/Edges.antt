-- ===== src/Storage/Counters/Edges.antt =====
-- The operations on edges keep the counters.
use memmy.Prelude.{
  ℕ, ◌+◌, ◌≤◌, ◌≡◌, refl, sym, ap, ◌∙◌, String, str_eq, Bool, true, List, [], ◌∷◌, if◌then◌else◌,
  length, arith, Bool-cases, inl, inr,
}
use memmy.Prelude.Int.{ℤ, pos, neg}
use memmy.Float.{Float}
use memmy.Types.{MemoryEdge}
use memmy.Storage.Rows.{
  Rel, TenantCounters, PropertyGraph, edge_kind_rel_type, rel_type_eq, is_between, matching,
  removing, encode_edge, decode_edge, merge_rel_row, set_rel_rows,
}
use memmy.Storage.Statement
use memmy.Storage.Statement.{add_counters, both_nodes}
use memmy.Storage.Database.{Database, IsCypher}
use memmy.Storage.Session.{Result, ok, err}
use memmy.Storage.Graph.Edge.{edge_delta, rel_of, put_edge_tx, update_edge_tx, delete_edge_tx}
use memmy.Storage.Counters.{node_in, rel_in, IsCounted}
use memmy.Storage.Counters.Balance.{count_up, count_down, node_count-adjust, edge_count-adjust}
use memmy.Storage.Counters.Rows.{
  count, OnKey, count-removing, count-removing-le, matching-removing, is_between-key,
  is_between-Within, rel_in-OnKey, is_between-OnKey, count-set_rel_rows, count-merge_new,
  count-merge_same,
}

module _ (f : Float) where
  open f use {F}

  -- The edges of `g` become `rels`, and the counters move by `delta`.
  abbrev after : PropertyGraph F → List (Rel F) → String → TenantCounters F → PropertyGraph F
  after g rels tenant delta = Statement.adjust f tenant delta (record g { rels = rels })

  module _ (g : PropertyGraph F) (ic : IsCounted g) (rels : List (Rel F)) (tenant : String)
      (w : F) where
    -- The node counter stays.
    kept :
        (z : ℤ) (t : String)
        → ((after g rels tenant (edge_delta f z w)).counters t).node_count
          ≡ pos (count (node_in t) g.nodes)
    kept z t = rw (node_count-adjust f tenant (edge_delta f z w) (record g { rels = rels }) t) (
        count_up (str_eq tenant t) (g.counters t).node_count 0 (count (node_in t) g.nodes)
          (count (node_in t) g.nodes) (ic.node_counts t) (ground arith))

    after_up :
        (k : ℕ)
        → ((t : String)
            → count (rel_in t) rels ≡ count (rel_in t) g.rels + (if str_eq tenant t then k else 0))
        → ((t a b : String) → count (is_between t a b) rels ≤ 1)
        → IsCounted (after g rels tenant (edge_delta f (pos k) w))
    unfolding Statement.adjust
    after_up k e one = record {
      node_counts = λ t. kept (pos k) t;
      edge_counts = λ t.
          rw (edge_count-adjust f tenant (edge_delta f (pos k) w) (record g { rels = rels }) t) (
            count_up (str_eq tenant t) (g.counters t).edge_count k (count (rel_in t) g.rels)
              (count (rel_in t) rels) (ic.edge_counts t) (e t));
      single = one;
    }

    after_down :
        (k : ℕ)
        → ((t : String)
            → count (rel_in t) rels + (if str_eq tenant t then k else 0) ≡ count (rel_in t) g.rels)
        → ((t a b : String) → count (is_between t a b) rels ≤ 1)
        → IsCounted (after g rels tenant (edge_delta f (neg k) w))
    unfolding Statement.adjust
    after_down k e one = record {
      node_counts = λ t. kept (neg k) t;
      edge_counts = λ t.
          rw (edge_count-adjust f tenant (edge_delta f (neg k) w) (record g { rels = rels }) t) (
            count_down (str_eq tenant t) (g.counters t).edge_count k (count (rel_in t) g.rels)
              (count (rel_in t) rels) (ic.edge_counts t) (e t));
      single = one;
    }

  -- A pair that has the new edge has no other.
  single-merge_new :
      (new : Rel F) (rs : List (Rel F))
      → matching (is_between new.tenant new.from new.to) rs ≡ []
      → ((t a b : String) → count (is_between t a b) rs ≤ 1)
      → (t a b : String) → count (is_between t a b) (merge_rel_row new rs) ≤ 1
  single-merge_new new rs h one t a b = elim (Bool-cases (is_between t a b new)) [
    | inl here ↦
        let (e1, e2, e3) = is_between-key t a b new here in
        let empty : count (is_between t a b) rs ≡ 0 = rw (e1, e2, e3) at (ap length h) in
        rw (count-merge_new new (is_between t a b) rs h, here) (omega (arith, empty))
    | inr there ↦ rw (count-merge_new new (is_between t a b) rs h, there) (omega (arith, one t a b))
  ]

  module _ (d : Database f) (cy : IsCypher f d) where
    open d use {Db, view}

    merge_rels :
        (r : Rel F) (db : Db)
        → both_nodes f r.tenant r.from r.to (view db) ≡ true
        → view (d.merge_rel r db) ≡ record (view db) { rels = merge_rel_row r (view db).rels }
    unfolding Statement.merge_rel
    merge_rels r db both = cy.merge_rel_lem r db ∙ rw both

    module _ (e : MemoryEdge F) (db : Db) (ic : IsCounted (view db))
        (both : both_nodes f e.tenant_id e.from e.to (view db) ≡ true) where
      put_new :
          (w : F)
          → matching (is_between e.tenant_id e.from e.to) (view db).rels ≡ []
          → IsCounted (
              view (
                d.adjust_counters e.tenant_id
                  (edge_delta f (pos 1) w)
                  (d.merge_rel (rel_of f e) db)))
      unfolding rel_of
      put_new w h =
          rw (cy.adjust_lem, merge_rels (rel_of f e) db both)
            (after_up (view db) ic (merge_rel_row (rel_of f e) (view db).rels) e.tenant_id w 1
              (λ t. count-merge_new (rel_of f e) (rel_in t) (view db).rels h)
              (single-merge_new (rel_of f e) (view db).rels h ic.single))

      put_same :
          (r : Rel F) (w : F)
          → matching (is_between e.tenant_id e.from e.to) (view db).rels ≡ r ∷ []
          → rel_type_eq r.rel_type (edge_kind_rel_type e.kind) ≡ true
          → IsCounted (
              view (
                d.adjust_counters e.tenant_id
                  (edge_delta f (pos 0) w)
                  (d.merge_rel (rel_of f e) db)))
      unfolding rel_of
      put_same r w h q =
          let same = λ (p : Rel F → Bool) (k : OnKey p).
            count-merge_same (rel_of f e) r p (view db).rels k h q in
          rw (cy.adjust_lem, merge_rels (rel_of f e) db both)
            (after_up (view db) ic (merge_rel_row (rel_of f e) (view db).rels) e.tenant_id w 0
              (λ t. ground (arith, same (rel_in t) (rel_in-OnKey t)))
              (λ t a b. rw (same (is_between t a b) (is_between-OnKey t a b)) (ic.single t a b)))

      put_other :
          (r : Rel F) (w : F)
          → matching (is_between e.tenant_id e.from e.to) (view db).rels ≡ r ∷ []
          → IsCounted (
              view (
                d.adjust_counters e.tenant_id
                  (edge_delta f (pos 0) w)
                  (d.merge_rel (rel_of f e) (d.delete_rels e.tenant_id e.from e.to db))))
      unfolding rel_of Statement.delete_rels both_nodes Statement.has_node
      put_other r w h =
          let t0 = e.tenant_id in
          let old = (view db).rels in
          let p : Rel F → Bool = is_between t0 e.from e.to in
          let cleared = cy.delete_rels_lem t0 e.from e.to db in
          let gone = matching-removing p old in
          let one : count p old ≡ 1 = ap length h in
          rw
            (
              cy.adjust_lem,
              merge_rels (rel_of f e) (d.delete_rels t0 e.from e.to db) (rw cleared both),
              cleared,
            )
            (after_up (view db) ic (merge_rel_row (rel_of f e) (removing p old)) t0 w 0
              (λ t. ground (
                arith,
                count-merge_new (rel_of f e) (rel_in t) (removing p old) gone,
                count-removing t0 t p old (is_between-Within t0 e.from e.to),
              ))
              (single-merge_new (rel_of f e) (removing p old) gone (λ t a b.
                omega (arith, count-removing-le (is_between t a b) p old, ic.single t a b))))

    put_edge_rows :
        (e : MemoryEdge F) (db : Db) (rows : List (Rel F))
        → IsCounted (view db)
        → both_nodes f e.tenant_id e.from e.to (view db) ≡ true
        → d.match_rels e.tenant_id e.from e.to db ≡ rows
        → matching (is_between e.tenant_id e.from e.to) (view db).rels ≡ rows
        → IsCounted (view (put_edge_tx f d e db).1)
    unfolding put_edge_tx
    put_edge_rows e db [] ic both q h =
        rw (q, put_edge_tx) (put_new e db ic both (f.sub e.weight f.nought) h)
    put_edge_rows e db (r ∷ []) ic both q h =
        elim (Bool-cases (rel_type_eq r.rel_type (edge_kind_rel_type e.kind))) [
          | inl same ↦
              rw (q, same, put_edge_tx)
                (put_same e db ic both r (f.sub e.weight r.props.weight) h same)
          | inr other ↦
              rw (q, other, put_edge_tx)
                (put_other e db ic both r (f.sub e.weight r.props.weight) h)
        ]
    put_edge_rows e db (r ∷ r' ∷ rs) ic both q h =
        let two = ic.single e.tenant_id e.from e.to in absurd (omega (arith, two, ap length h))

    -- `PutEdge` between two nodes that are there, whatever edge they had, keeps the counters
    -- equal to the counts, and one edge at most from the one node to the other.
    pub put_edge_tx-IsCounted :
        (e : MemoryEdge F) (db : Db)
        → IsCounted (view db)
        → both_nodes f e.tenant_id e.from e.to (view db) ≡ true
        → IsCounted (view (put_edge_tx f d e db).1)
    put_edge_tx-IsCounted e db ic both =
        put_edge_rows e db (d.match_rels e.tenant_id e.from e.to db) ic both refl
          (sym (cy.match_rels_lem e.tenant_id e.from e.to db))

    module _ {A : Type 0} (t0 a0 b0 : String) (fn : MemoryEdge F → Result (MemoryEdge F × A))
        (db : Db) where
      set_same :
          (e : MemoryEdge F) (w : F)
          → IsCounted (view db)
          → IsCounted (
              view (
                d.adjust_counters t0
                  (edge_delta f (pos 0) w)
                  (d.set_rels t0 a0 b0 (encode_edge e) db)))
      unfolding Statement.set_rels
      set_same e w ic =
          rw (cy.adjust_lem, cy.set_rels_lem)
            (after_up (view db) ic (set_rel_rows t0 a0 b0 (encode_edge e) (view db).rels) t0 w 0
              (λ t. ground (
                arith,
                count-set_rel_rows t0 a0 b0 (encode_edge e) (rel_in t) (view db).rels
                    (rel_in-OnKey t),
              ))
              (λ t a b.
                rw
                  (count-set_rel_rows t0 a0 b0 (encode_edge e) (is_between t a b) (view db).rels
                    (is_between-OnKey t a b))
                  (ic.single t a b)))

      -- The closure returned `e` on the edge `r`.
      updated :
          (r : Rel F) (e : MemoryEdge F) (a : A)
          → IsCounted (view db)
          → both_nodes f t0 a0 b0 (view db) ≡ true
          → d.match_rels t0 a0 b0 db ≡ r ∷ []
          → matching (is_between t0 a0 b0) (view db).rels ≡ r ∷ []
          → fn (decode_edge r) ≡ ok (e, a)
          → IsCounted (view (update_edge_tx f d t0 a0 b0 fn db).1)
      unfolding update_edge_tx rel_of encode_edge
      updated r e a ic both q h k =
          let w = f.sub e.weight r.props.weight in
          elim (Bool-cases (rel_type_eq (edge_kind_rel_type e.kind) r.rel_type)) [
            | inl same ↦ rw (q, k, same, update_edge_tx) (set_same e w ic)
            | inr other ↦
                rw (q, k, other, update_edge_tx)
                  (put_other (record e { tenant_id = t0; from = a0; to = b0 }) db ic both r w h)
          ]

      update_edge_result :
          (r : Rel F) (o : Result (MemoryEdge F × A))
          → IsCounted (view db)
          → both_nodes f t0 a0 b0 (view db) ≡ true
          → d.match_rels t0 a0 b0 db ≡ r ∷ []
          → matching (is_between t0 a0 b0) (view db).rels ≡ r ∷ []
          → fn (decode_edge r) ≡ o
          → IsCounted (view (update_edge_tx f d t0 a0 b0 fn db).1)
      unfolding update_edge_tx
      update_edge_result r (ok (e, a)) ic both q h k = updated r e a ic both q h k
      update_edge_result r (err x) ic both q h k = rw (q, k, update_edge_tx) ic

      update_edge_rows :
          (rows : List (Rel F))
          → IsCounted (view db)
          → both_nodes f t0 a0 b0 (view db) ≡ true
          → d.match_rels t0 a0 b0 db ≡ rows
          → matching (is_between t0 a0 b0) (view db).rels ≡ rows
          → IsCounted (view (update_edge_tx f d t0 a0 b0 fn db).1)
      unfolding update_edge_tx
      update_edge_rows [] ic both q h = rw (q, update_edge_tx) ic
      update_edge_rows (r ∷ []) ic both q h =
          update_edge_result r (fn (decode_edge r)) ic both q h refl
      update_edge_rows (r ∷ r' ∷ rs) ic both q h =
          let two = ic.single t0 a0 b0 in absurd (omega (arith, two, ap length h))

    -- `UpdateEdge` between two nodes that are there keeps the counters equal to the counts and one
    -- edge at most for each pair, also where the closure changes the kind and so the relationship's
    -- type, where it fails, and where there is no edge.
    pub update_edge_tx-IsCounted :
        {A : Type 0} (t a b : String) (fn : MemoryEdge F → Result (MemoryEdge F × A)) (db : Db)
        → IsCounted (view db)
        → both_nodes f t a b (view db) ≡ true
        → IsCounted (view (update_edge_tx f d t a b fn db).1)
    update_edge_tx-IsCounted t a b fn db ic both =
        update_edge_rows t a b fn db (d.match_rels t a b db) ic both refl
          (sym (cy.match_rels_lem t a b db))

    delete_edge_rows :
        (t0 a0 b0 : String) (db : Db) (rows : List (Rel F))
        → IsCounted (view db)
        → d.match_rels t0 a0 b0 db ≡ rows
        → matching (is_between t0 a0 b0) (view db).rels ≡ rows
        → IsCounted (view (delete_edge_tx f d t0 a0 b0 db).1)
          × (matching (is_between t0 a0 b0) (view (delete_edge_tx f d t0 a0 b0 db).1).rels ≡ [])
    unfolding delete_edge_tx Statement.delete_rels Statement.adjust
    delete_edge_rows t0 a0 b0 db [] ic q h = rw (q, delete_edge_tx) (ic, h)
    delete_edge_rows t0 a0 b0 db (r ∷ []) ic q h =
        let old = (view db).rels in
        let p : Rel F → Bool = is_between t0 a0 b0 in
        let one : count p old ≡ 1 = ap length h in
        rw (q, delete_edge_tx)
          (
            rw (cy.adjust_lem, cy.delete_rels_lem)
                (after_down (view db) ic (removing p old) t0 (f.neg r.props.weight) 1
                  (λ t. ground (arith, count-removing t0 t p old (is_between-Within t0 a0 b0)))
                  (λ t a b.
                    omega (arith, count-removing-le (is_between t a b) p old, ic.single t a b))),
            rw (cy.adjust_lem, cy.delete_rels_lem) (matching-removing p old),
          )
    delete_edge_rows t0 a0 b0 db (r ∷ r' ∷ rs) ic q h =
        let two = ic.single t0 a0 b0 in absurd (omega (arith, two, ap length h))

    -- `DeleteEdge` leaves no edge from the one node to the other, and keeps the counters equal to
    -- the counts.
    pub delete_edge_tx-IsCounted :
        (t a b : String) (db : Db)
        → IsCounted (view db)
        → IsCounted (view (delete_edge_tx f d t a b db).1)
          × (matching (is_between t a b) (view (delete_edge_tx f d t a b db).1).rels ≡ [])
    delete_edge_tx-IsCounted t a b db ic =
        delete_edge_rows t a b db (d.match_rels t a b db) ic refl (sym (cy.match_rels_lem t a b db))
