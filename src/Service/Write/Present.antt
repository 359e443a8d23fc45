-- ===== src/Service/Write/Present.antt =====
-- The nodes that are there stay there under the transactions of `Write`.
use memmy.Prelude.{
  ℕ, ◌≡◌, refl, ◌∙◌, arith, String, eq_iff, Bool, true, false, List, [], ◌∷◌, if◌then◌else◌,
  Bool-cases, inl, inr,
}
use memmy.Float.{Float}
use memmy.Types.{Node, MemoryEdge}
use memmy.Storage.Rows.{
  is_node, find_node, merge_node_row, change_node_row, encode_node, edge_kind_rel_type, rel_type_eq,
  Rel, TenantCounters,
}
use memmy.Storage.Statement
use memmy.Storage.Statement.{has_node, is_some}
use memmy.Storage.Database.{Database, IsCypher}
use memmy.Storage.Graph.Node.{put_node_tx}
use memmy.Storage.Graph.Edge.{put_edge_tx, rel_of}
use memmy.Storage.Counters.{IsCounted}
use memmy.Storage.Counters.Operations.{IsCounted-same, count-change_node_row}

module _ {F : Type 0} where
  same-key :
      (t i : String) (n new : Node F)
      → is_node new.tenant_id new.id n ≡ true
      → is_node t i new ≡ is_node t i n
  unfolding is_node
  same-key t i n new e = ground (arith, eq_iff n.tenant_id new.tenant_id, eq_iff n.id new.id)

  some-merge_node_row :
      (t i : String) (new : Node F) (ns : List (Node F))
      → is_some (find_node t i ns) ≡ true
      → is_some (find_node t i (merge_node_row new ns)) ≡ true
  unfolding find_node merge_node_row is_node
  some-merge_node_row t i new [] h = absurd (cc)
  some-merge_node_row t i new (n ∷ ns) h = elim (Bool-cases (is_node new.tenant_id new.id n)) [
    | inl e ↦ rw e (elim (Bool-cases (is_node t i n)) [
      | inl k ↦ rw (same-key t i n new e, k) refl
      | inr k ↦ rw (same-key t i n new e, k) (rw k at h)
    ])
    | inr e ↦ rw e (elim (Bool-cases (is_node t i n)) [
      | inl k ↦ rw k refl
      | inr k ↦ rw k (some-merge_node_row t i new ns (rw k at h))
    ])
  ]

  some-new :
      (new : Node F) (ns : List (Node F))
      → is_some (find_node new.tenant_id new.id (merge_node_row new ns)) ≡ true
  unfolding find_node merge_node_row is_node
  some-new new [] = ground (arith, eq_iff new.tenant_id new.tenant_id, eq_iff new.id new.id)
  some-new new (n ∷ ns) =
      ground (arith, eq_iff new.tenant_id new.tenant_id, eq_iff new.id new.id, some-new new ns)

  some-change_node_row :
      (t i t' i' : String) (change : Node F → Node F) (ns : List (Node F))
      → ((n : Node F) → is_node t i (change n) ≡ is_node t i n)
      → is_some (find_node t i (change_node_row t' i' change ns)) ≡ is_some (find_node t i ns)
  unfolding find_node change_node_row is_node
  some-change_node_row t i t' i' change [] k = refl
  some-change_node_row t i t' i' change (n ∷ ns) k =
      ground (arith, k n, some-change_node_row t i t' i' change ns k)

module _ (f : Float) (d : Database f) (cy : IsCypher f d) where
  open d use {Db, view}

  -- Every node that is there first is there afterwards.
  pub record Grows (db db' : Db) : Type 0 where
    pub still : (t i : String) → has_node f t i (view db) ≡ true → has_node f t i (view db') ≡ true

  pub Grows-trans : (a b c : Db) → Grows a b → Grows b c → Grows a c
  Grows-trans a b c g h = record { still = λ t i k. h.still t i (g.still t i k) }

  pub same_nodes : (a b : Db) → (view b).nodes ≡ (view a).nodes → Grows a b
  unfolding has_node
  same_nodes a b e = record { still = λ t i k. rw e k }

  put_node_tx-nodes :
      (n : Node f.F) (db : Db)
      → (view (put_node_tx f d n db).1).nodes ≡ merge_node_row (encode_node n) (view db).nodes
  unfolding put_node_tx Statement.adjust Statement.merge_node
  put_node_tx-nodes n db = rw (cy.adjust_lem, cy.merge_node_lem) refl

  pub put_node_tx-Grows : (n : Node f.F) (db : Db) → Grows db (put_node_tx f d n db).1
  unfolding has_node
  put_node_tx-Grows n db = record {
    still = λ t i k.
        rw (put_node_tx-nodes n db) (some-merge_node_row t i (encode_node n) (view db).nodes k);
  }

  pub put_node_tx-there :
      (n : Node f.F) (db : Db) → has_node f n.tenant_id n.id (view (put_node_tx f d n db).1) ≡ true
  unfolding has_node encode_node
  put_node_tx-there n db = rw (put_node_tx-nodes n db) (some-new (encode_node n) (view db).nodes)

  merge_rel-nodes : (r : Rel f.F) (db : Db) → (view (d.merge_rel r db)).nodes ≡ (view db).nodes
  unfolding Statement.merge_rel
  merge_rel-nodes r db = elim (Bool-cases (Statement.both_nodes f r.tenant r.from r.to (view db))) [
    | inl b ↦ rw (cy.merge_rel_lem r db, b) refl
    | inr b ↦ rw (cy.merge_rel_lem r db, b) refl
  ]

  adjust-nodes :
      (t : String) (c : TenantCounters f.F) (db : Db)
      → (view (d.adjust_counters t c db)).nodes ≡ (view db).nodes
  unfolding Statement.adjust
  adjust-nodes t c db = rw (cy.adjust_lem t c db) refl

  cleared-nodes :
      (e : MemoryEdge f.F) (same : Bool) (db : Db)
      → (view (if same then db else d.delete_rels e.tenant_id e.from e.to db)).nodes
        ≡ (view db).nodes
  unfolding Statement.delete_rels
  cleared-nodes e true db = refl
  cleared-nodes e false db = rw (cy.delete_rels_lem e.tenant_id e.from e.to db) refl

  put_edge_tx-nodes :
      (e : MemoryEdge f.F) (db : Db) → (view (put_edge_tx f d e db).1).nodes ≡ (view db).nodes
  unfolding put_edge_tx
  put_edge_tx-nodes e db = go (d.match_rels e.tenant_id e.from e.to db) refl
    where
      go :
          (rs : List (Rel f.F))
          → (d.match_rels e.tenant_id e.from e.to db ≡ rs)
          → (view (put_edge_tx f d e db).1).nodes ≡ (view db).nodes
      go [] m = rw (put_edge_tx, m) (adjust-nodes _ _ _ ∙ merge_rel-nodes (rel_of f e) db)
      go (r ∷ rs) m =
          rw (put_edge_tx, m)
            (adjust-nodes _ _ _
              ∙ merge_rel-nodes (rel_of f e) _
              ∙ cleared-nodes e (rel_type_eq r.rel_type (edge_kind_rel_type e.kind)) db)

  pub put_edge_tx-Grows : (e : MemoryEdge f.F) (db : Db) → Grows db (put_edge_tx f d e db).1
  put_edge_tx-Grows e db = same_nodes db (put_edge_tx f d e db).1 (put_edge_tx-nodes e db)

  module _ (t i : String) (vec : List f.F) (dim : ℕ) (db : Db)
      (there : has_node f t i (view db) ≡ true) where
    set_embedding-nodes :
        (view (d.set_embedding t i vec dim db)).nodes
        ≡ change_node_row t i (λ n. record n { embedding_dim = dim }) (view db).nodes
    unfolding Statement.set_embedding
    set_embedding-nodes = rw (cy.set_embedding_lem, there) refl

    pub set_embedding-Grows : Grows db (d.set_embedding t i vec dim db)
    unfolding has_node is_node
    set_embedding-Grows = record {
      still = λ t' i' k.
          rw
            (
              set_embedding-nodes,
              some-change_node_row t' i' t i (λ n. record n { embedding_dim = dim }) (view db).nodes
                  (λ n. refl),
            )
            k;
    }

    -- An embedding of a node that is there changes no counts.
    pub set_embedding-IsCounted :
        IsCounted (view db) → IsCounted (view (d.set_embedding t i vec dim db))
    unfolding Statement.set_embedding
    set_embedding-IsCounted ic =
        IsCounted-same (view db) (view (d.set_embedding t i vec dim db))
          (rw cy.set_embedding_lem refl) (rw cy.set_embedding_lem refl)
          (λ t'. rw set_embedding-nodes (
            count-change_node_row t i t' (λ n. record n { embedding_dim = dim }) (view db).nodes
              (λ n. refl)))
          ic
