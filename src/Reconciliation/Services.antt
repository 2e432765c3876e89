-- ===== src/Reconciliation/Services.antt =====
-- apps/reconciliation/services.py: creating and reversing a reconciliation.
pub mod Validation
pub mod Operations
pub mod Totals
pub mod Capacity
pub mod Accepted
pub mod Balance
pub mod Reverse
pub mod RoundTrip
pub mod Undo
