-- ===== src/Storage/Migrate.antt =====
-- internal/storage/neo4j/migrate.go
pub mod Scripts
pub mod Apply
pub mod Numbered
pub mod Progress
pub mod Reach
