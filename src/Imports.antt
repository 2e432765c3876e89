-- ===== src/Imports.antt =====
-- apps/imports: the record of which source material is complete, and the import of files.
pub mod Coverage
pub mod Matrix
pub mod Rows
pub mod Mapping
pub mod Matching
pub mod Checks
pub mod Tables
pub mod Disposition
pub mod Staging
pub mod Confirm
pub mod Again
pub mod Scene
mod Tests
mod BatchTests
