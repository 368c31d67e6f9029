-- ===== src/Docs.antt =====
-- tools/docs.ts: the generator of the documentation's pages.
pub mod Marks
pub mod Types
pub mod Tuples
pub mod Functions
pub mod Modules
