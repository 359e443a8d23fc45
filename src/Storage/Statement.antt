-- ===== src/Storage/Statement.antt =====
-- What the Cypher statements of internal/storage/neo4j mean on a property graph.
use memmy.Prelude.{
  ℕ, ◌++◌, List, [], ◌∷◌, String, str_eq, Bool, true, false, ◌&&◌, Option, none, some,
  if◌then◌else◌,
}
use memmy.Prelude.Int.{◌+ℤ◌}
use memmy.Float.{Float}
use memmy.Types.{Node}
use memmy.Storage.Messages.{MessageRow, TenantRow, is_message, merge_message_row, merge_tenant_row}
use memmy.Storage.Rows.{
  change_node_row, Rel, EdgeProps, TenantCounters, PropertyGraph, find_node, set_node_row,
  merge_node_row, delete_node_row, is_between, is_incident, removing, merge_rel_row, set_rel_rows,
}

abbrev pub is_some {ℓ} : {A : Type ℓ} → Option A → Bool
is_some none = false
is_some (some a) = true

module _ (f : Float) where
  open f use {F, add}

  unfoldable pub add_counters : TenantCounters F → TenantCounters F → TenantCounters F
  add_counters c d = record {
    node_count = c.node_count +ℤ d.node_count;
    edge_count = c.edge_count +ℤ d.edge_count;
    sum_node_weight = add c.sum_node_weight d.sum_node_weight;
    sum_edge_weight = add c.sum_edge_weight d.sum_edge_weight;
  }

  -- `MATCH (a) MATCH (b)` finds a row only if both nodes are there.
  unfoldable pub has_node : String → String → PropertyGraph F → Bool
  has_node tenant id g = is_some (find_node tenant id g.nodes)

  unfoldable pub both_nodes : String → String → String → PropertyGraph F → Bool
  unfolding has_node
  both_nodes tenant from to g = has_node tenant from g && has_node tenant to g

  unfoldable pub merge_node : Node F → PropertyGraph F → PropertyGraph F
  merge_node n g = record g { nodes = merge_node_row n g.nodes }

  unfoldable pub set_node : String → String → Node F → PropertyGraph F → PropertyGraph F
  set_node tenant id n g = record g { nodes = set_node_row tenant id n g.nodes }

  -- `SET n.tombstoned = true` on the row of a node.
  unfoldable pub tombstone : String → String → PropertyGraph F → PropertyGraph F
  unfolding change_node_row
  tombstone tenant id g = record g {
    nodes = change_node_row tenant id (λ n. record n { tombstoned = true }) g.nodes;
  }

  -- The node that a `MERGE` on its key alone creates: the other properties are absent.
  abbrev pub bare_node : String → String → ℕ → Node F
  bare_node tenant id dim = record {
    id = id;
    tenant_id = tenant;
    source_msg_id = "";
    sentence_span = (0, 0);
    text = [];
    embedding_dim = dim;
    created_at = 0;
    last_touched = 0;
    weight = f.nought;
    access_count = 0;
    tombstoned = false;
  }

  -- `MERGE (n:Node {tenant, id}) SET n.embedding = $vec, n.embedding_dim = $dim`
  unfoldable pub set_embedding : String → String → List F → ℕ → PropertyGraph F → PropertyGraph F
  unfolding has_node change_node_row
  set_embedding tenant id vec dim g = record g {
    nodes =
        if has_node tenant id g
        then change_node_row tenant id (λ n. record n { embedding_dim = dim }) g.nodes
        else g.nodes ++ bare_node tenant id dim ∷ [];
    embedding = λ t i. if str_eq tenant t && str_eq id i then some vec else g.embedding t i;
  }

  unfoldable pub merge_message : MessageRow → PropertyGraph F → PropertyGraph F
  merge_message m g = record g { messages = merge_message_row m g.messages }

  unfoldable pub delete_message : String → String → PropertyGraph F → PropertyGraph F
  delete_message tenant id g = record g { messages = removing (is_message tenant id) g.messages }

  unfoldable pub merge_tenant : TenantRow → PropertyGraph F → PropertyGraph F
  merge_tenant t g = record g { tenants = merge_tenant_row t g.tenants }

  unfoldable pub detach_delete : String → String → PropertyGraph F → PropertyGraph F
  detach_delete tenant id g = record g {
    nodes = delete_node_row tenant id g.nodes;
    rels = removing (is_incident tenant id) g.rels;
    embedding = λ t i. if str_eq tenant t && str_eq id i then none else g.embedding t i;
  }

  unfoldable pub delete_rels : String → String → String → PropertyGraph F → PropertyGraph F
  delete_rels tenant from to g = record g { rels = removing (is_between tenant from to) g.rels }

  unfoldable pub merge_rel : Rel F → PropertyGraph F → PropertyGraph F
  unfolding both_nodes
  merge_rel r g =
      if both_nodes r.tenant r.from r.to g then record g { rels = merge_rel_row r g.rels } else g

  unfoldable pub set_rels :
      String → String → String → EdgeProps F → PropertyGraph F → PropertyGraph F
  set_rels tenant from to props g = record g { rels = set_rel_rows tenant from to props g.rels }

  unfoldable pub adjust : String → TenantCounters F → PropertyGraph F → PropertyGraph F
  unfolding add_counters
  adjust tenant delta g = record g {
    counters = λ t. if str_eq tenant t then add_counters (g.counters t) delta else g.counters t;
  }
