-- ===== src/Storage/Rows.antt =====
-- The values that the Cypher statements of internal/storage/neo4j read and write, with their
-- property encoders and decoders (graph.go, codec.go, counters.go), and a property graph as the
-- lists of its :Node nodes, of its relationships and of its :Counter nodes.
use memmy.Prelude.{
  ℕ, String, str_eq, Bool, true, false, ◌&&◌, ◌||◌, Option, none, some, List, [], ◌∷◌,
  if◌then◌else◌,
}
use memmy.Prelude.Int.{ℤ}
use memmy.Types.{EdgeKind, structural, co_retrieval, co_traversal, unknown, Node, MemoryEdge}
use memmy.Types.Instant.{Time, to_millis}
use memmy.Storage.Messages.{MessageRow, TenantRow}

pub data RelType : Type 0 where
  structural_rel coretrieval cotraversal : RelType

unfoldable pub edge_kind_rel_type : EdgeKind → RelType
edge_kind_rel_type structural = structural_rel
edge_kind_rel_type co_retrieval = coretrieval
edge_kind_rel_type co_traversal = cotraversal
edge_kind_rel_type (unknown n) = structural_rel

unfoldable pub rel_type_edge_kind : RelType → EdgeKind
rel_type_edge_kind structural_rel = structural
rel_type_edge_kind coretrieval = co_retrieval
rel_type_edge_kind cotraversal = co_traversal

-- `oldRelType == relType`.
unfoldable pub rel_type_eq : RelType → RelType → Bool
rel_type_eq structural_rel structural_rel = true
rel_type_eq coretrieval coretrieval = true
rel_type_eq cotraversal cotraversal = true
rel_type_eq _ _ = false

-- The properties of a relationship that `encodeEdgePropsForSet` sets, beside its tenant.
pub record EdgeProps (F : Type 0) : Type 0 where
  pub weight : F
  pub created_at : Time
  pub last_touched : Time
  pub access_count : ℕ
  pub traverse_count : ℕ

-- A relationship `(a:Node {tenant, id: from})-[:rel_type {props}]->(b:Node {tenant, id: to})`.
pub record Rel (F : Type 0) : Type 0 where
  pub tenant : String
  pub from : String
  pub to : String
  pub rel_type : RelType
  pub props : EdgeProps F

-- `tenantCounters`.
pub record TenantCounters (F : Type 0) : Type 0 where
  pub node_count : ℤ
  pub edge_count : ℤ
  pub sum_node_weight : F
  pub sum_edge_weight : F

module _ {F : Type 0} where
  unfoldable pub encode_node : Node F → Node F
  unfolding to_millis
  encode_node n = record n {
    created_at = to_millis n.created_at;
    last_touched = to_millis n.last_touched;
  }

  unfoldable pub encode_edge : MemoryEdge F → EdgeProps F
  unfolding to_millis
  encode_edge e = record {
    weight = e.weight;
    created_at = to_millis e.created_at;
    last_touched = to_millis e.last_touched;
    access_count = e.access_count;
    traverse_count = e.traverse_count;
  }

  -- `decodeEdgeProps`, and the three fields that its callers set.
  unfoldable pub decode_edge : Rel F → MemoryEdge F
  unfolding rel_type_edge_kind
  decode_edge r = record {
    from = r.from;
    to = r.to;
    tenant_id = r.tenant;
    kind = rel_type_edge_kind r.rel_type;
    weight = r.props.weight;
    last_touched = r.props.last_touched;
    created_at = r.props.created_at;
    access_count = r.props.access_count;
    traverse_count = r.props.traverse_count;
  }

pub record PropertyGraph (F : Type 0) : Type 0 where
  pub nodes : List (Node F)
  pub rels : List (Rel F)
  pub counters : String → TenantCounters F
  pub messages : List MessageRow
  pub tenants : List TenantRow
  -- The property `embedding` of a :Node.
  pub embedding : String → String → Option (List F)

module _ {F : Type 0} where
  unfoldable pub is_node : String → String → Node F → Bool
  is_node tenant id n = str_eq n.tenant_id tenant && str_eq n.id id

  unfoldable pub find_node : String → String → List (Node F) → Option (Node F)
  find_node tenant id [] = none
  find_node tenant id (n ∷ ns) = if is_node tenant id n then some n else find_node tenant id ns

  -- The matched row gets the properties of `new`.
  unfoldable pub set_node_row : String → String → Node F → List (Node F) → List (Node F)
  set_node_row tenant id new [] = []
  set_node_row tenant id new (n ∷ ns) =
      if is_node tenant id n then new ∷ ns else n ∷ set_node_row tenant id new ns

  -- A `SET` of some properties of the matched row.
  unfoldable pub change_node_row :
      String → String → (Node F → Node F) → List (Node F) → List (Node F)
  change_node_row tenant id change [] = []
  change_node_row tenant id change (n ∷ ns) =
      if is_node tenant id n then change n ∷ ns else n ∷ change_node_row tenant id change ns

  abbrev pub is_from : String → String → Node F → Bool
  is_from tenant msg_id n = str_eq n.tenant_id tenant && str_eq n.source_msg_id msg_id

  abbrev pub leaves : String → String → Rel F → Bool
  leaves tenant id r = str_eq r.tenant tenant && str_eq r.from id

  abbrev pub enters : String → String → Rel F → Bool
  enters tenant id r = str_eq r.tenant tenant && str_eq r.to id

  unfoldable pub merge_node_row : Node F → List (Node F) → List (Node F)
  merge_node_row new [] = new ∷ []
  merge_node_row new (n ∷ ns) =
      if is_node new.tenant_id new.id n then new ∷ ns else n ∷ merge_node_row new ns

  unfoldable pub delete_node_row : String → String → List (Node F) → List (Node F)
  delete_node_row tenant id [] = []
  delete_node_row tenant id (n ∷ ns) =
      if is_node tenant id n then ns else n ∷ delete_node_row tenant id ns

  unfoldable pub is_between : String → String → String → Rel F → Bool
  is_between tenant from to r = str_eq r.tenant tenant && (str_eq r.from from && str_eq r.to to)

  unfoldable pub is_incident : String → String → Rel F → Bool
  is_incident tenant id r = str_eq r.tenant tenant && (str_eq r.from id || str_eq r.to id)

module _ {ℓ} {A : Type ℓ} (p : A → Bool) where
  -- The rows that a `MATCH` finds, and those that a `DELETE` of them leaves.
  abbrev pub matching : List A → List A
  matching [] = []
  matching (r ∷ rs) = let rest = matching rs in if p r then r ∷ rest else rest

  abbrev pub removing : List A → List A
  removing [] = []
  removing (r ∷ rs) = let rest = removing rs in if p r then rest else r ∷ rest

module _ {F : Type 0} where
  abbrev same_rel : Rel F → Rel F → Bool
  same_rel new r = is_between new.tenant new.from new.to r && rel_type_eq r.rel_type new.rel_type

  -- `MERGE (a)-[r:T]->(b) SET r += $props`, between nodes that are there.
  unfoldable pub merge_rel_row : Rel F → List (Rel F) → List (Rel F)
  merge_rel_row new [] = new ∷ []
  merge_rel_row new (r ∷ rs) = if same_rel new r then new ∷ rs else r ∷ merge_rel_row new rs

  -- `SET r += $props` on every relationship between the two nodes.
  unfoldable pub set_rel_rows : String → String → String → EdgeProps F → List (Rel F) → List (Rel F)
  set_rel_rows tenant from to props [] = []
  set_rel_rows tenant from to props (r ∷ rs) =
      (if is_between tenant from to r then record r { props = props } else r)
      ∷ set_rel_rows tenant from to props rs
