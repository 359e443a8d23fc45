-- ===== src/Chunker.antt =====
-- internal/chunker/chunker.go
pub mod Text
pub mod Split
pub mod Window
