-- ===== src/Storage/Graph/Node.antt =====
-- The operations of internal/storage/neo4j/graph.go on nodes.
use memmy.Prelude.{ℕ, String, str_eq, Bool, Option, none, some, if◌then◌else◌, length}
use memmy.Prelude.Int.{ℤ, pos, negsuc, neg}
use memmy.Float.{Float}
use memmy.Types.{Node}
use memmy.Storage.Rows.{TenantCounters, encode_node}
use memmy.Storage.Database.{Database}
use memmy.Storage.Session.{
  not_found, message, Result, ok, err, M, throw, with_write_session, with_read_session,
}

module _ (f : Float) where
  open f use {F, sub, nought}

  -- A delta of one weight sum.
  abbrev pub node_delta : ℤ → F → TenantCounters F
  node_delta count weight = record {
    node_count = count;
    edge_count = pos 0;
    sum_node_weight = weight;
    sum_edge_weight = nought;
  }

  abbrev pub weight_or_nought : Option (Node F) → F
  weight_or_nought none = nought
  weight_or_nought (some n) = n.weight

  abbrev pub one_if_none {ℓ} : {A : Type ℓ} → Option A → ℤ
  one_if_none none = pos 1
  one_if_none (some a) = pos 0

  module _ (d : Database f) where
    open d use {Db, match_node, merge_node, set_node, adjust_counters}

    unfoldable pub put_node_tx : Node F → Db → Result (Unit {0}) × Db
    put_node_tx n db =
        let old = match_node n.tenant_id n.id db in
        let db1 = merge_node (encode_node n) db in
        (
          ok tt,
          adjust_counters n.tenant_id
              (node_delta (one_if_none old) (sub n.weight (weight_or_nought old))) db1,
        )

    -- The closure returns the node that it leaves behind the pointer, and what it hands out.
    unfoldable pub update_node_tx :
        {A : Type 0} → String → String → (Node F → Result (Node F × A)) → Db → Result A × Db
    update_node_tx tenant id fn db = elim (match_node tenant id db) [
      | none ↦ (err not_found, db)
      | some current ↦ elim (fn current) [
        | err e ↦ (err e, db)
        | ok (n, a) ↦ (
          ok a,
          adjust_counters tenant (node_delta (pos 0) (sub n.weight current.weight))
              (set_node tenant id (encode_node n) db),
        )
      ]
    ]

    unfoldable pub delete_node_tx : String → String → Db → Result (Unit {0}) × Db
    delete_node_tx tenant id db = elim (match_node tenant id db) [
      | none ↦ (ok tt, db)
      | some n ↦
          let attached = d.match_incident tenant id db in
          (
            ok tt,
            adjust_counters tenant
                (record {
                  node_count = negsuc 0;
                  edge_count = neg (length attached);
                  sum_node_weight = f.neg n.weight;
                  sum_edge_weight = f.neg (d.sum_weights attached);
                })
                (d.detach_delete tenant id db),
          )
    ]

    unfoldable pub get_node_tx : String → String → Db → Result (Node F)
    get_node_tx tenant id db = elim (match_node tenant id db) [
      | none ↦ err not_found
      | some n ↦ ok n
    ]

    module _ (commits : ℕ → Bool) where
      -- `validateNode`, then the transaction.
      unfoldable pub put_node : Node F → M Db (Unit {0})
      put_node n =
          if str_eq n.id ""
          then throw (message "graph: node ID required")
          else if str_eq n.tenant_id ""
          then throw (message "graph: node TenantID required")
          else with_write_session commits (put_node_tx n)

      unfoldable pub update_node :
          {A : Type 0} → String → String → (Node F → Result (Node F × A)) → M Db A
      update_node tenant id fn = with_write_session commits (update_node_tx tenant id fn)

      unfoldable pub delete_node : String → String → M Db (Unit {0})
      delete_node tenant id = with_write_session commits (delete_node_tx tenant id)

      unfoldable pub get_node : String → String → M Db (Node F)
      get_node tenant id = with_read_session commits (get_node_tx tenant id)
