-- ===== src/Reconciliation/Settlements.antt =====
-- apps/reconciliation/settlements.py: a settlement batch gathers the open invoices and payments of a
-- counterparty in a period, and is confirmed as a whole.
pub mod Drafts
pub mod Sums
pub mod Confirm
pub mod Accepted
pub mod Totals
pub mod Settled
pub mod Once
pub mod TimeZone
mod Tests
