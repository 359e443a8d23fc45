-- ===== src/Tests.antt =====
-- Runs on concrete inputs, and each theorem at an input that meets its hypotheses.
mod Samples
mod Chunks
mod Tenants
mod Weights
mod Stores
mod Requests
mod Scores
mod Configs
mod Codec
mod Operations
mod Migrations
mod Caches
mod Calls
mod Facades
