-- ===== src/Reconciliation.antt =====
-- apps/reconciliation: matching invoices with payments.
pub mod Result
pub mod Database
pub mod Queries
pub mod Services
pub mod Settlements
pub mod Reached
pub mod Candidates
pub mod Plan
mod Tests
