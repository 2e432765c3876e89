-- ===== src/Reconciliation/Candidates.antt =====
-- apps/reconciliation/candidates.py: which payments settle an invoice, and which invoices a payment.
pub mod Windows
pub mod Search
pub mod Exact
pub mod Offered
pub mod Invoices
mod Tests
