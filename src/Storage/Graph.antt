-- ===== src/Storage/Graph.antt =====
-- `graphAdapter` of internal/storage/neo4j/graph.go: the `Graph` port over the database.
pub mod Node
pub mod Edge
pub mod Message
pub mod Neighbor
