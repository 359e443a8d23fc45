-- ===== src/Storage/Graph/Neighbor.antt =====
-- `Neighbors` and `InboundNeighbors` of internal/storage/neo4j/graph.go.
use memmy.Prelude.{ℕ, String, Bool, List, map}
use memmy.Float.{Float}
use memmy.Types.{MemoryEdge}
use memmy.Storage.Rows.{Rel, decode_edge}
use memmy.Storage.Database.{Database}
use memmy.Storage.Session.{ok, M, with_read_session}

module _ (f : Float) (d : Database f) (commits : ℕ → Bool) where
  open d use {Db}

  -- `edge.TenantID = tenant`; the other two names are those of the matched nodes.
  abbrev pub edge_of_row : String → Rel f.F → MemoryEdge f.F
  edge_of_row tenant r = record (decode_edge r) { tenant_id = tenant }

  -- `neighborQuery`.
  unfoldable pub neighbor_query :
      (String → String → Db → List (Rel f.F)) → String → String → M Db (List (MemoryEdge f.F))
  neighbor_query pattern tenant id =
      with_read_session commits (λ db. ok (map (edge_of_row tenant) (pattern tenant id db)))

  unfoldable pub neighbors : String → String → M Db (List (MemoryEdge f.F))
  unfolding neighbor_query
  neighbors = neighbor_query d.match_outbound

  unfoldable pub inbound_neighbors : String → String → M Db (List (MemoryEdge f.F))
  unfolding neighbor_query
  inbound_neighbors = neighbor_query d.match_inbound
