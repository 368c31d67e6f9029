-- ===== src/Api.antt =====
-- tools/api.ts: the description of the API and what the generators share.
pub mod Types
pub mod Naming
pub mod Find
pub mod Parse
pub mod Info
