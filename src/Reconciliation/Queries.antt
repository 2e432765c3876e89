-- ===== src/Reconciliation/Queries.antt =====
-- apps/reconciliation/queries.py: what of an invoice or of a payment is still open. The sum runs
-- over the allocations of reconciliations that have not been reversed.
use finance_reconciliation.Prelude.{ℕ, Bool, ◌&&◌, sum_where, ◌==◌}
use finance_reconciliation.Prelude.Int.{ℤ, sub_ℕ}
use finance_reconciliation.Reconciliation.Result.{Result, ok, does_not_exist, or_raise, ◌>>=◌}
use finance_reconciliation.Reconciliation.Database.{
  Allocation, Database, find_invoice, find_transaction, is_active,
}

-- The rows of `reconciliationallocation` that the filter of the annotation keeps.
abbrev pub counts_for_invoice : Database → ℕ → Allocation → Bool
counts_for_invoice db k a = a.invoice == k && is_active db.reversals a.reconciliation

abbrev pub counts_for_transaction : Database → ℕ → Allocation → Bool
counts_for_transaction db k a = a.transaction == k && is_active db.reversals a.reconciliation

-- `Coalesce(Sum(…), Decimal("0.00"))`
unfoldable pub invoice_allocated : ℕ → Database → ℕ
invoice_allocated k db = sum_where (counts_for_invoice db k) (λ a. a.amount) db.allocations

unfoldable pub transaction_allocated : ℕ → Database → ℕ
transaction_allocated k db = sum_where (counts_for_transaction db k) (λ a. a.amount) db.allocations

unfoldable pub invoice_open_amount : ℕ → Database → Result ℤ
invoice_open_amount k db = do
  invoice ← or_raise (find_invoice k db) does_not_exist
  ok (sub_ℕ invoice.total_amount (invoice_allocated k db))

unfoldable pub transaction_open_amount : ℕ → Database → Result ℤ
transaction_open_amount k db = do
  money ← or_raise (find_transaction k db) does_not_exist
  ok (sub_ℕ money.amount (transaction_allocated k db))
