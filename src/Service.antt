-- ===== src/Service.antt =====
-- internal/service
pub mod Tenant
pub mod Config
pub mod Weight
pub mod Request
pub mod Explicit
pub mod Association
pub mod Mark
pub mod Forget
pub mod Stats
pub mod New
pub mod Recall
pub mod Write
