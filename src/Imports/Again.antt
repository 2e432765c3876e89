-- ===== src/Imports/Again.antt =====
-- apps/imports: a statement that is exported again after its import.
pub mod MoneyRows
pub mod Restaged
pub mod Statements
