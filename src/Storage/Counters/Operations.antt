-- ===== src/Storage/Counters/Operations.antt =====
-- Each operation of the adapter, as an action that keeps the counters equal to the counts.
use memmy.Prelude.{
  ℕ, zero, suc, ◌≡◌, refl, String, str_eq, Bool, true, List, [], ◌∷◌, length, arith,
}
use memmy.Prelude.Int.{ℤ, pos, negsuc}
use memmy.Float.{Float}
use memmy.Types.{Node, Message, TenantInfo}
use memmy.Types.Instant.{Time}
use memmy.Storage.Messages.{Json, MessageRow, TenantRow}
use memmy.Storage.Rows.{PropertyGraph, change_node_row, matching}
use memmy.Storage.Statement
use memmy.Storage.Database.{Database, IsCypher}
use memmy.Storage.Session.{Result}
use memmy.Storage.Session.Kept.{Keeps, read-Keeps, write-Keeps, cond-Keeps, same-Keeps}
use memmy.Storage.Graph.Node.{
  get_node, get_node_tx, update_node, update_node_tx, delete_node, delete_node_tx, put_node,
  put_node_tx,
}
use memmy.Storage.Graph.Edge.{delete_edge, delete_edge_tx}
use memmy.Storage.Graph.Message.{put_message, delete_message, upsert_tenant}
use memmy.Storage.Graph.Neighbor.{neighbors, inbound_neighbors}
use memmy.Storage.Scanners.{recent_node_ids, nodes_for_message, message_ids_before}
use memmy.Storage.Vector.{delete_vector}
use memmy.Storage.Counters.{node_in, IsCounted}
use memmy.Storage.Counters.Nodes.{
  KeepsTenant, put_node_tx-IsCounted, update_node_tx-IsCounted, delete_node_tx-IsCounted,
}
use memmy.Storage.Counters.Edges.{delete_edge_tx-IsCounted}

pub count-change_node_row :
    {F : Type 0} (t i t' : String) (change : Node F → Node F) (ns : List (Node F))
    → ((n : Node F) → (change n).tenant_id ≡ n.tenant_id)
    → length (matching (node_in t') (change_node_row t i change ns))
      ≡ length (matching (node_in t') ns)
unfolding change_node_row
count-change_node_row t i t' change [] k = refl
count-change_node_row t i t' change (n ∷ ns) k =
    ground (arith, k n, count-change_node_row t i t' change ns k)

module _ {F : Type 0} (g h : PropertyGraph F) where
  -- The counts look at the counters, the relationships and the tenants of the nodes.
  pub IsCounted-same :
      h.counters ≡ g.counters
      → h.rels ≡ g.rels
      → ((t : String)
          → length (matching (node_in t) h.nodes) ≡ length (matching (node_in t) g.nodes))
      → IsCounted g
      → IsCounted h
  IsCounted-same c r n ic = record {
    node_counts = λ t. rw (c, n t) (ic.node_counts t);
    edge_counts = λ t. rw (c, r) (ic.edge_counts t);
    single = λ t a b. rw r (ic.single t a b);
  }

module _ (f : Float) (d : Database f) (cy : IsCypher f d) (commits : ℕ → Bool) where
  open d use {Db, view}

  abbrev pub Balanced : Db → Type 0
  Balanced db = IsCounted (view db)

  tombstone-IsCounted : (t i : String) (db : Db) → Balanced db → Balanced (d.tombstone t i db)
  unfolding Statement.tombstone
  tombstone-IsCounted t i db ic = rw (cy.tombstone_lem t i db) (
      IsCounted-same (view db) (Statement.tombstone f t i (view db)) refl refl
        (λ t'.
          count-change_node_row t i t' (λ n. record n { tombstoned = true }) (view db).nodes
            (λ n. refl))
        ic)

  delete_message-IsCounted :
      (t i : String) (db : Db) → Balanced db → Balanced (d.delete_message t i db)
  unfolding Statement.delete_message
  delete_message-IsCounted t i db ic = rw (cy.delete_message_lem t i db) (
      IsCounted-same (view db) (Statement.delete_message f t i (view db)) refl refl (λ t'. refl) ic)

  merge_message-IsCounted :
      (m : MessageRow) (db : Db) → Balanced db → Balanced (d.merge_message m db)
  unfolding Statement.merge_message
  merge_message-IsCounted m db ic =
      rw (cy.merge_message_lem m db)
        (IsCounted-same (view db) (Statement.merge_message f m (view db)) refl refl (λ t'. refl) ic)

  pub get_node-Keeps : (t i : String) → Keeps Balanced (get_node f d commits t i)
  unfolding get_node
  get_node-Keeps t i = read-Keeps Balanced commits (get_node_tx f d t i)

  pub put_node-Keeps : (n : Node f.F) → Keeps Balanced (put_node f d commits n)
  unfolding put_node
  put_node-Keeps n = cond-Keeps Balanced (str_eq n.id "") (same-Keeps Balanced (λ w. refl)) (
      cond-Keeps Balanced (str_eq n.tenant_id "") (same-Keeps Balanced (λ w. refl))
        (write-Keeps Balanced commits (put_node_tx f d n) (put_node_tx-IsCounted f d cy n)))

  pub update_node-Keeps :
      {A : Type 0} (t i : String) (fn : Node f.F → Result (Node f.F × A))
      → KeepsTenant f d cy fn
      → Keeps Balanced (update_node f d commits t i fn)
  unfolding update_node
  update_node-Keeps t i fn k =
      write-Keeps Balanced commits (update_node_tx f d t i fn)
        (λ db. update_node_tx-IsCounted f d cy t i fn db k)

  pub delete_node-Keeps : (t i : String) → Keeps Balanced (delete_node f d commits t i)
  unfolding delete_node
  delete_node-Keeps t i =
      write-Keeps Balanced commits (delete_node_tx f d t i)
        (λ db ic. (delete_node_tx-IsCounted f d cy t i db ic).0)

  pub delete_edge-Keeps : (t a b : String) → Keeps Balanced (delete_edge f d commits t a b)
  unfolding delete_edge
  delete_edge-Keeps t a b =
      write-Keeps Balanced commits (delete_edge_tx f d t a b)
        (λ db h. (delete_edge_tx-IsCounted f d cy t a b db h).0)

  pub neighbors_keep : (t i : String) → Keeps Balanced (neighbors f d commits t i)
  unfolding neighbors
  neighbors_keep t i = read-Keeps Balanced commits _

  pub inbound_neighbors_keep : (t i : String) → Keeps Balanced (inbound_neighbors f d commits t i)
  unfolding inbound_neighbors
  inbound_neighbors_keep t i = read-Keeps Balanced commits _

  pub recent_node_ids-Keeps :
      (t : String) (since : Time) (exclude : String) (n : ℤ)
      → Keeps Balanced (recent_node_ids f d commits t since exclude n)
  unfolding recent_node_ids
  recent_node_ids-Keeps t since exclude (pos zero) = same-Keeps Balanced (λ w. refl)
  recent_node_ids-Keeps t since exclude (pos (suc n)) = read-Keeps Balanced commits _
  recent_node_ids-Keeps t since exclude (negsuc n) = same-Keeps Balanced (λ w. refl)

  pub nodes_for_message-Keeps : (t m : String) → Keeps Balanced (nodes_for_message f d commits t m)
  unfolding nodes_for_message
  nodes_for_message-Keeps t m = read-Keeps Balanced commits _

  pub message_ids_before-Keeps :
      (t : String) (before : Time) → Keeps Balanced (message_ids_before f d commits t before)
  unfolding message_ids_before
  message_ids_before-Keeps t before = read-Keeps Balanced commits _

  pub delete_message-Keeps :
      (j : Json) (t i : String) → Keeps Balanced (delete_message f d j commits t i)
  unfolding delete_message
  delete_message-Keeps j t i = write-Keeps Balanced commits _ (delete_message-IsCounted t i)

  pub put_message-Keeps : (j : Json) (m : Message) → Keeps Balanced (put_message f d j commits m)
  unfolding put_message
  put_message-Keeps j m = cond-Keeps Balanced (str_eq m.id "") (same-Keeps Balanced (λ w. refl)) (
      cond-Keeps Balanced (str_eq m.tenant_id "") (same-Keeps Balanced (λ w. refl))
        (write-Keeps Balanced commits _ (merge_message-IsCounted _)))

  pub delete_vector-Keeps :
      (dim : ℕ) (threshold : ℤ) (t i : String)
      → Keeps Balanced (delete_vector f d dim threshold commits t i)
  unfolding delete_vector
  delete_vector-Keeps dim threshold t i = write-Keeps Balanced commits _ (tombstone-IsCounted t i)

  merge_tenant-IsCounted : (t : TenantRow) (db : Db) → Balanced db → Balanced (d.merge_tenant t db)
  unfolding Statement.merge_tenant
  merge_tenant-IsCounted t db ic =
      rw (cy.merge_tenant_lem t db)
        (IsCounted-same (view db) (Statement.merge_tenant f t (view db)) refl refl (λ t'. refl) ic)

  pub upsert_tenant-Keeps :
      (j : Json) (t : TenantInfo) → Keeps Balanced (upsert_tenant f d j commits t)
  unfolding upsert_tenant
  upsert_tenant-Keeps j t =
      cond-Keeps Balanced (str_eq t.id "") (same-Keeps Balanced (λ w. refl))
        (write-Keeps Balanced commits _ (merge_tenant-IsCounted _))
