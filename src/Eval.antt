-- ===== src/Eval.antt =====
-- internal/eval
pub mod Metrics
pub mod EmbedCache
