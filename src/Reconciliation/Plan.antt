-- ===== src/Reconciliation/Plan.antt =====
-- apps/reconciliation/presenters.py: the allocations proposed for a batch.
pub mod Loop
pub mod Settles
pub mod Confirmable
pub mod Direct
mod Tests
