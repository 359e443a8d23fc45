-- ===== src/Storage/Counters/Nodes.antt =====
-- The operations on nodes keep the counters.
use memmy.Prelude.{
  ℕ, ◌+◌, ◌≡◌, refl, sym, ◌∙◌, String, str_eq, Option, none, some, List, [], ◌∷◌, if◌then◌else◌,
  length, arith,
}
use memmy.Prelude.Int.{pos, negsuc, neg}
use memmy.Float.{Float}
use memmy.Types.{Node}
use memmy.Storage.Rows.{
  TenantCounters, Rel, PropertyGraph, find_node, is_between, is_incident, removing, encode_node,
  merge_node_row, set_node_row, delete_node_row,
}
use memmy.Storage.Statement
use memmy.Storage.Database.{Database, IsCypher}
use memmy.Storage.Session.{Result, ok, err}
use memmy.Storage.Graph.Node.{node_delta, put_node_tx, update_node_tx, delete_node_tx}
use memmy.Storage.Counters.{node_in, rel_in, IsCounted}
use memmy.Storage.Counters.Balance.{count_up, count_down, node_count-adjust, edge_count-adjust}
use memmy.Storage.Counters.Rows.{
  count, count-removing, count-removing-le, is_incident-Within, count-merge_node_new,
  count-merge_node_same, count-set_node, count-delete_node, find_node-tenant,
}

module _ (f : Float) where
  open f use {F}

  -- The relationships that are left when the node, if it was there, is gone with its own.
  abbrev pub rels_left : String → String → PropertyGraph F → Option (Node F) → List (Rel F)
  rels_left tenant id g none = g.rels
  rels_left tenant id g (some n) = removing (is_incident tenant id) g.rels

  delete_node-missing :
      (t i : String) (ns : List (Node F)) → find_node t i ns ≡ none → ns ≡ delete_node_row t i ns
  unfolding find_node delete_node_row
  delete_node-missing t i [] h = refl
  delete_node-missing t i (n ∷ ns) h = ground (arith, delete_node-missing t i ns)

  -- The nodes of `g` become `nodes`, and the node counter moves up.
  after_up :
      (g : PropertyGraph F) (nodes : List (Node F)) (tenant : String) (w : F) (k : ℕ)
      → IsCounted g
      → ((t : String)
          → count (node_in t) nodes
            ≡ count (node_in t) g.nodes + (if str_eq tenant t then k else 0))
      → IsCounted (Statement.adjust f tenant (node_delta f (pos k) w) (record g { nodes = nodes }))
  unfolding Statement.adjust
  after_up g nodes tenant w k ic e = record {
    node_counts = λ t.
        rw (node_count-adjust f tenant (node_delta f (pos k) w) (record g { nodes = nodes }) t) (
          count_up (str_eq tenant t) (g.counters t).node_count k (count (node_in t) g.nodes)
            (count (node_in t) nodes) (ic.node_counts t) (e t));
    edge_counts = λ t.
        rw (edge_count-adjust f tenant (node_delta f (pos k) w) (record g { nodes = nodes }) t) (
          count_up (str_eq tenant t) (g.counters t).edge_count 0 (count (rel_in t) g.rels)
            (count (rel_in t) g.rels) (ic.edge_counts t) (ground arith));
    single = ic.single;
  }

  module _ (d : Database f) (cy : IsCypher f d) where
    open d use {Db, view}

    put_node_found :
        (n : Node F) (db : Db) (o : Option (Node F))
        → IsCounted (view db)
        → d.match_node n.tenant_id n.id db ≡ o
        → find_node n.tenant_id n.id (view db).nodes ≡ o
        → IsCounted (view (put_node_tx f d n db).1)
    unfolding put_node_tx Statement.merge_node encode_node
    put_node_found n db none ic q h =
        rw (q, put_node_tx, cy.adjust_lem, cy.merge_node_lem)
          (after_up (view db) (merge_node_row (encode_node n) (view db).nodes) n.tenant_id
            (f.sub n.weight f.nought) 1 ic
            (λ t. count-merge_node_new (encode_node n) t (view db).nodes h))
    put_node_found n db (some old) ic q h =
        rw (q, put_node_tx, cy.adjust_lem, cy.merge_node_lem)
          (after_up (view db) (merge_node_row (encode_node n) (view db).nodes) n.tenant_id
            (f.sub n.weight old.weight) 0 ic
            (λ t. ground (arith, count-merge_node_same (encode_node n) old t (view db).nodes h)))

    -- `PutNode`, of a new node and of one that is there, keeps the counters equal to the counts.
    pub put_node_tx-IsCounted :
        (n : Node F) (db : Db) → IsCounted (view db) → IsCounted (view (put_node_tx f d n db).1)
    put_node_tx-IsCounted n db ic =
        put_node_found n db (d.match_node n.tenant_id n.id db) ic refl
          (sym (cy.match_node_lem n.tenant_id n.id db))

    -- A closure that leaves the tenant of the node alone.
    abbrev pub KeepsTenant : {A : Type 0} → (Node F → Result (Node F × A)) → Type 0
    KeepsTenant {A} fn = (n m : Node F) (a : A) → fn n ≡ ok (m, a) → m.tenant_id ≡ n.tenant_id

    module _ {A : Type 0} (t0 i : String) (fn : Node F → Result (Node F × A))
        (keeps : KeepsTenant fn) (db : Db) (ic : IsCounted (view db)) where
      update_result :
          (n : Node F) (o : Result (Node F × A))
          → d.match_node t0 i db ≡ some n
          → find_node t0 i (view db).nodes ≡ some n
          → fn n ≡ o
          → IsCounted (view (update_node_tx f d t0 i fn db).1)
      unfolding update_node_tx Statement.set_node encode_node
      update_result n (err x) q h k = rw (q, k, update_node_tx) ic
      update_result n (ok (m, a)) q h k =
          let tenant = keeps n m a k ∙ find_node-tenant t0 i n (view db).nodes h in
          rw (q, k, update_node_tx, cy.adjust_lem, cy.set_node_lem)
            (after_up (view db) (set_node_row t0 i (encode_node m) (view db).nodes) t0
              (f.sub m.weight n.weight) 0 ic
              (λ t. ground (arith, count-set_node t0 i (encode_node m) t (view db).nodes tenant)))

      update_found :
          (o : Option (Node F))
          → d.match_node t0 i db ≡ o
          → find_node t0 i (view db).nodes ≡ o
          → IsCounted (view (update_node_tx f d t0 i fn db).1)
      unfolding update_node_tx
      update_found none q h = rw (q, update_node_tx) ic
      update_found (some n) q h = update_result n (fn n) q h refl

    -- `UpdateNode` with a closure that leaves the node's tenant alone keeps the counters equal to
    -- the counts, also where the closure fails and where the node is not there.
    pub update_node_tx-IsCounted :
        {A : Type 0} (t i : String) (fn : Node F → Result (Node F × A)) (db : Db)
        → KeepsTenant fn
        → IsCounted (view db)
        → IsCounted (view (update_node_tx f d t i fn db).1)
    update_node_tx-IsCounted t i fn db keeps ic =
        update_found t i fn keeps db ic (d.match_node t i db) refl (sym (cy.match_node_lem t i db))

    module _ (t0 i : String) (db : Db) (ic : IsCounted (view db)) where
      -- The delta of `DeleteNode`.
      abbrev delta : Node F → TenantCounters F
      delta n = record {
        node_count = negsuc 0;
        edge_count = neg (length (d.match_incident t0 i db));
        sum_node_weight = f.neg n.weight;
        sum_edge_weight = f.neg (d.sum_weights (d.match_incident t0 i db));
      }

      -- What the database holds after `DETACH DELETE`.
      abbrev left : PropertyGraph F
      left = Statement.detach_delete f t0 i (view db)

      deleted :
          (n : Node F)
          → find_node t0 i (view db).nodes ≡ some n
          → IsCounted (Statement.adjust f t0 (delta n) left)
      unfolding Statement.adjust Statement.detach_delete
      deleted n h = record {
        node_counts = λ t. rw (node_count-adjust f t0 (delta n) left t) (
            count_down (str_eq t0 t) ((view db).counters t).node_count 1
              (count (node_in t) (view db).nodes)
              (count (node_in t) (delete_node_row t0 i (view db).nodes)) (ic.node_counts t)
              (count-delete_node t0 i t n (view db).nodes h));
        edge_counts = λ t.
            rw (edge_count-adjust f t0 (delta n) left t, cy.match_incident_lem)
              (count_down (str_eq t0 t) ((view db).counters t).edge_count
                (count (is_incident t0 i) (view db).rels) (count (rel_in t) (view db).rels)
                (count (rel_in t) (removing (is_incident t0 i) (view db).rels)) (ic.edge_counts t)
                (count-removing t0 t (is_incident t0 i) (view db).rels (is_incident-Within t0 i)));
        single = λ t a b. omega (
          arith,
          count-removing-le (is_between t a b) (is_incident t0 i) (view db).rels,
          ic.single t a b,
        );
      }

      delete_found :
          (o : Option (Node F))
          → d.match_node t0 i db ≡ o
          → find_node t0 i (view db).nodes ≡ o
          → IsCounted (view (delete_node_tx f d t0 i db).1)
      unfolding delete_node_tx
      delete_found none q h = rw (q, delete_node_tx) ic
      delete_found (some n) q h =
          rw (q, delete_node_tx, cy.adjust_lem, cy.detach_delete_lem) (deleted n h)

      delete_done :
          (o : Option (Node F))
          → d.match_node t0 i db ≡ o
          → find_node t0 i (view db).nodes ≡ o
          → ((view (delete_node_tx f d t0 i db).1).nodes ≡ delete_node_row t0 i (view db).nodes)
            × ((view (delete_node_tx f d t0 i db).1).rels ≡ rels_left t0 i (view db) o)
      unfolding delete_node_tx Statement.adjust Statement.detach_delete
      delete_done none q h =
          rw (q, delete_node_tx) (delete_node-missing t0 i (view db).nodes h, refl)
      delete_done (some n) q h =
          rw (q, delete_node_tx, cy.adjust_lem, cy.detach_delete_lem) (refl, refl)

    -- `DeleteNode` keeps the counters equal to the counts; it takes the row of the node away, if
    -- there is one, and with it every relationship that starts or ends at the node, and no other
    -- row.
    pub delete_node_tx-IsCounted :
        (t i : String) (db : Db)
        → IsCounted (view db)
        → IsCounted (view (delete_node_tx f d t i db).1)
          × ((view (delete_node_tx f d t i db).1).nodes ≡ delete_node_row t i (view db).nodes)
          × ((view (delete_node_tx f d t i db).1).rels
              ≡ rels_left t i (view db) (find_node t i (view db).nodes))
    delete_node_tx-IsCounted t i db ic =
        let found = sym (cy.match_node_lem t i db) in
        let (nodes, rels) = delete_done t i db ic (d.match_node t i db) refl found in
        (delete_found t i db ic (d.match_node t i db) refl found, nodes, rw found rels)
