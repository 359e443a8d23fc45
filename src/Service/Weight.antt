-- ===== src/Service/Weight.antt =====
-- The closures of internal/service/decay.go: what one transaction does to a node or an edge.
pub mod Node
pub mod Edge
