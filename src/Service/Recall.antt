-- ===== src/Service/Recall.antt =====
-- internal/service/recall.go
pub mod Types
pub mod Seeds
pub mod Expand
pub mod Results
pub mod Pipeline
pub mod Route
pub mod Reach
pub mod Hits
pub mod Total
