-- ===== src/Storage/Database.antt =====
-- The Neo4j server behind internal/storage/neo4j, which the repository does not implement: its
-- states, the statements that the adapter runs, and their documented meaning as what they do to
-- the property graph that a state holds. An operation here is one Cypher statement of graph.go or
-- counters.go.
use memmy.Prelude.{ℕ, none, some, true, All, String, ◌≡◌, Option, List}
use memmy.Float.{Float}
use memmy.Types.{Node}
use memmy.Prelude.Int.{ℤ, pos}
use memmy.Storage.Messages.{MessageRow, TenantRow, find_message, find_tenant}
use memmy.Storage.Rows.{
  leaves, enters, is_from, Rel, EdgeProps, TenantCounters, PropertyGraph, find_node, is_between,
  is_incident, matching,
}
use memmy.Storage.Statement

module _ (f : Float) where
  open f use {F}

  -- The server: abstract states, and for each statement what it returns or does.
  pub record Database : Type 1 where
    pub Db : Type 0
    pub view : Db → PropertyGraph F
    -- `MATCH (n:Node {tenant: $tenant, id: $id}) RETURN n`
    pub match_node : String → String → Db → Option (Node F)
    -- `MERGE (n:Node {tenant: $tenant, id: $id}) SET n += $props`
    pub merge_node : Node F → Db → Db
    -- `MATCH (n:Node {tenant: $tenant, id: $id}) SET n += $props`
    pub set_node : String → String → Node F → Db → Db
    -- `OPTIONAL MATCH (n)-[r]-() RETURN count(r)` and `coalesce(sum(r.weight), 0.0)`
    pub match_incident : String → String → Db → List (Rel F)
    pub sum_weights : List (Rel F) → F
    -- `MATCH (n:Node {tenant: $tenant, id: $id}) DETACH DELETE n`
    pub detach_delete : String → String → Db → Db
    -- `MATCH (a {tenant, id: $from})-[r]->(b {tenant, id: $to}) RETURN r, type(r)`
    pub match_rels : String → String → String → Db → List (Rel F)
    -- `MATCH (a {tenant, id: $from})-[r]->(b {tenant, id: $to}) DELETE r`
    pub delete_rels : String → String → String → Db → Db
    -- `MATCH (a) MATCH (b) MERGE (a)-[r:T]->(b) SET r += $props`
    pub merge_rel : Rel F → Db → Db
    -- `MATCH (a)-[r]->(b) SET r += $props`
    pub set_rels : String → String → String → EdgeProps F → Db → Db
    -- `MERGE (c:Counter {tenant: $tenant}) ON CREATE SET … = 0 SET c.x = c.x + $dx`
    pub adjust_counters : String → TenantCounters F → Db → Db
    -- `MATCH (a {tenant, id: $id})-[r]->(b)` and `MATCH (a)-[r]->(b {tenant, id: $id})`
    pub match_outbound : String → String → Db → List (Rel F)
    pub match_inbound : String → String → Db → List (Rel F)
    -- `MATCH (c:Counter {tenant: $tenant}) RETURN …`
    pub match_counters : String → Db → Option (TenantCounters F)
    -- The messages: `MERGE … SET`, `MATCH … RETURN m`, `MATCH … DETACH DELETE m`
    pub merge_message : MessageRow → Db → Db
    pub match_message : String → String → Db → Option MessageRow
    pub delete_message : String → String → Db → Db
    -- The tenants: `MERGE … SET`, `MATCH … RETURN t`, `MATCH … RETURN t ORDER BY t.id ASC`
    pub merge_tenant : TenantRow → Db → Db
    pub match_tenant : String → Db → Option TenantRow
    pub match_tenants : Db → List TenantRow
    -- The identifiers of nodes since a time, from no message but the given one, newest first.
    pub match_recent : String → ℤ → String → ℕ → Db → List String
    -- `MATCH (n:Node {tenant: $tenant, source_msg_id: $msg}) RETURN n`
    pub match_message_nodes : String → String → Db → List (Node F)
    -- `MATCH (m:Message {tenant: $tenant}) WHERE m.created_at_unix_ms < $before RETURN m.id`
    pub match_messages_before : String → ℤ → Db → List String
    -- `count(n)` of the nodes with an embedding that are not tombstoned.
    pub count_live : String → Db → ℕ
    -- `MERGE (n:Node {tenant, id}) SET n.embedding = $vec, n.embedding_dim = $dim`
    pub set_embedding : String → String → List F → ℕ → Db → Db
    -- `MATCH (n:Node {tenant: $tenant, id: $id}) SET n.tombstoned = true`
    pub tombstone : String → String → Db → Db
    -- `vector.similarity.cosine` over the tenant's live nodes, and `db.index.vector.queryNodes` with
    -- the number of entries to probe: identifiers and similarities, the best first.
    pub scan_similar : String → List F → ℕ → Db → List (String × F)
    pub query_index : ℕ → String → List F → ℕ → Db → List (String × F)

  abbrev pub no_counters : TenantCounters F
  no_counters = record {
    node_count = pos 0;
    edge_count = pos 0;
    sum_node_weight = f.nought;
    sum_edge_weight = f.nought;
  }

  abbrev pub or_zero : Option (TenantCounters F) → TenantCounters F
  or_zero none = no_counters
  or_zero (some c) = c

  -- What the statements mean on the property graph.
  pub record IsCypher (d : Database) : Type 0 where
    pub match_node_lem :
        (t i : String) (db : d.Db) → d.match_node t i db ≡ find_node t i (d.view db).nodes
    pub match_rels_lem :
        (t a b : String) (db : d.Db)
        → d.match_rels t a b db ≡ matching (is_between t a b) (d.view db).rels
    pub match_incident_lem :
        (t i : String) (db : d.Db)
        → d.match_incident t i db ≡ matching (is_incident t i) (d.view db).rels
    pub merge_node_lem :
        (n : Node F) (db : d.Db) → d.view (d.merge_node n db) ≡ Statement.merge_node f n (d.view db)
    pub set_node_lem :
        (t i : String) (n : Node F) (db : d.Db)
        → d.view (d.set_node t i n db) ≡ Statement.set_node f t i n (d.view db)
    pub detach_delete_lem :
        (t i : String) (db : d.Db)
        → d.view (d.detach_delete t i db) ≡ Statement.detach_delete f t i (d.view db)
    pub delete_rels_lem :
        (t a b : String) (db : d.Db)
        → d.view (d.delete_rels t a b db) ≡ Statement.delete_rels f t a b (d.view db)
    pub merge_rel_lem :
        (r : Rel F) (db : d.Db) → d.view (d.merge_rel r db) ≡ Statement.merge_rel f r (d.view db)
    pub set_rels_lem :
        (t a b : String) (p : EdgeProps F) (db : d.Db)
        → d.view (d.set_rels t a b p db) ≡ Statement.set_rels f t a b p (d.view db)
    pub adjust_lem :
        (t : String) (c : TenantCounters F) (db : d.Db)
        → d.view (d.adjust_counters t c db) ≡ Statement.adjust f t c (d.view db)
    pub match_outbound_lem :
        (t i : String) (db : d.Db)
        → d.match_outbound t i db ≡ matching (leaves t i) (d.view db).rels
    pub match_inbound_lem :
        (t i : String) (db : d.Db) → d.match_inbound t i db ≡ matching (enters t i) (d.view db).rels
    -- A tenant with no :Counter node has the counts zero.
    pub match_counters_lem :
        (t : String) (db : d.Db) → or_zero (d.match_counters t db) ≡ (d.view db).counters t
    pub merge_message_lem :
        (m : MessageRow) (db : d.Db)
        → d.view (d.merge_message m db) ≡ Statement.merge_message f m (d.view db)
    pub match_message_lem :
        (t i : String) (db : d.Db) → d.match_message t i db ≡ find_message t i (d.view db).messages
    pub delete_message_lem :
        (t i : String) (db : d.Db)
        → d.view (d.delete_message t i db) ≡ Statement.delete_message f t i (d.view db)
    pub merge_tenant_lem :
        (r : TenantRow) (db : d.Db)
        → d.view (d.merge_tenant r db) ≡ Statement.merge_tenant f r (d.view db)
    pub match_tenant_lem :
        (i : String) (db : d.Db) → d.match_tenant i db ≡ find_tenant i (d.view db).tenants
    pub match_message_nodes_lem :
        (t m : String) (db : d.Db)
        → d.match_message_nodes t m db ≡ matching (is_from t m) (d.view db).nodes
    -- Only nodes that are there are returned.
    pub match_recent_lem :
        (t : String) (since : ℤ) (m : String) (n : ℕ) (db : d.Db)
        → All (λ i. Statement.has_node f t i (d.view db) ≡ true) (d.match_recent t since m n db)
    pub set_embedding_lem :
        (t i : String) (vec : List F) (dim : ℕ) (db : d.Db)
        → d.view (d.set_embedding t i vec dim db)
          ≡ Statement.set_embedding f t i vec dim (d.view db)
    pub tombstone_lem :
        (t i : String) (db : d.Db)
        → d.view (d.tombstone t i db) ≡ Statement.tombstone f t i (d.view db)
