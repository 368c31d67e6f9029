-- ===== src/Ts.antt =====
-- tools/ts-code.ts: the generator of the TypeScript binding.
pub mod Names
pub mod JsDoc
pub mod Types
pub mod Constructors
pub mod Functions
pub mod AppObject
pub mod Modules
pub mod Balance
