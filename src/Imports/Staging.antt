-- ===== src/Imports/Staging.antt =====
-- apps/imports: from a file to the staged rows of a batch.
pub mod Prepare
pub mod Files
pub mod Counts
pub mod Staged
