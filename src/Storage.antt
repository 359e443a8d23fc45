-- ===== src/Storage.antt =====
-- internal/storage/neo4j
pub mod Messages
pub mod Rows
pub mod Statement
pub mod Database
pub mod Session
pub mod Graph
pub mod Scanners
pub mod Vector
pub mod Counters
pub mod Migrate
pub mod Open
