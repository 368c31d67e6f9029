-- ===== src/Build.antt =====
-- ton_client/build-lib.js and ton_client/build.js: the scripts that build the client library.
pub mod Folders
pub mod Options
pub mod Parallel
pub mod Process
pub mod Script
pub mod Version
