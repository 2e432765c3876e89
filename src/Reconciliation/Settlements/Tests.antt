-- ===== src/Reconciliation/Settlements/Tests.antt =====
-- A batch that is drafted and confirmed, one that cannot be, and instances of the theorems.
use finance_reconciliation.Prelude.{
  ℕ, ◌-◌, ◌*◌, ◌≡◌, ◌≢◌, refl, true, some, List, [], ◌∷◌, arith, contains,
}
use finance_reconciliation.Prelude.Int.{pos, ◌+ℤ◌}
use finance_reconciliation.Accounts.Roles.{is_finance_actor, user_has_role}
use finance_reconciliation.Ledger.{MoneyTransaction, local_date, utc_date}
use finance_reconciliation.Reconciliation.Result.{ok, err, batch_confirmed}
use finance_reconciliation.Reconciliation.Database.{
  purchase_payment, batch, draft, SettlementBatch, Database, is_active,
}
use finance_reconciliation.Reconciliation.Queries.{
  invoice_allocated, transaction_allocated, invoice_open_amount, transaction_open_amount,
}
use finance_reconciliation.Reconciliation.Services.Validation.{AllocationInput}
use finance_reconciliation.Reconciliation.Services.Operations.{write_reconciliation}
use finance_reconciliation.Reconciliation.Services.Balance.{IsConsistent}
use finance_reconciliation.Reconciliation.Settlements.Drafts.{
  invoice_eligible, transaction_eligible, write_batch, create_settlement_batch,
}
use finance_reconciliation.Reconciliation.Settlements.Sums.{
  invoice_total, transaction_total, validate_allocation_totals,
}
use finance_reconciliation.Reconciliation.Settlements.Confirm.{
  find_batch, members, has_duplicate_pair, validate_members, validate_batch_invoice,
  validate_batch_transaction, validate_batch_invoices, validate_batch_transactions,
  is_externally_occupied, member_amounts, validate_batch_allocations, validate_batch_version,
  batch_request, confirm_settlement_batch,
}
use finance_reconciliation.Reconciliation.Settlements.Settled.{confirm_settlement_batch-settles}
use finance_reconciliation.Reconciliation.Reached.{
  drafts, confirms, IsUnmatched, unchanged, later, Reach-IsConsistent,
}
use finance_reconciliation.Reconciliation.Settlements.Once.{closed, confirm_settlement_batch-once}
use finance_reconciliation.Reconciliation.Settlements.TimeZone.{
  create_settlement_batch-early_payment,
}
use finance_reconciliation.Reconciliation.Tests.{
  clerk, bill, payment, start, cents, day, run_create,
}

abbrev drafted : Database
drafted = write_batch clerk 5 purchase_payment 20000 20030 (bill ∷ []) (payment ∷ []) 300 start

create-drafted :
    create_settlement_batch clerk 5 (some purchase_payment) 20000 20030 300 start ≡ ok drafted
unfolding create_settlement_batch is_finance_actor user_has_role invoice_eligible
    transaction_eligible invoice_allocated transaction_allocated local_date is_active
create-drafted = refl

abbrev row : SettlementBatch
row = record {
  id = 300;
  counterparty = 5;
  direction = purchase_payment;
  period_start = 20000;
  period_end = 20030;
  status = draft;
  version = 1;
  created_by = some 1;
}

abbrev items : List AllocationInput
items = record { invoice_id = 10; transaction_id = 20; amount = cents 10000 } ∷ []

abbrev settled : Database
settled =
    let after =
      write_reconciliation (batch_request clerk row items) purchase_payment batch 100 drafted in
    record after { batches = closed row ∷ [] }

drafted-IsConsistent : IsConsistent drafted
unfolding invoice_allocated transaction_allocated is_active write_batch
drafted-IsConsistent = record {
  invoices_fit = λ k i h. omega arith;
  transactions_fit = λ k m h. omega arith;
  reversals_known = λ r h. refl;
  allocations_known = λ r h. refl;
}

confirm-drafted : confirm_settlement_batch 300 clerk items 1 100 drafted ≡ ok settled
unfolding confirm_settlement_batch validate_batch_allocations validate_batch_version
    validate_members has_duplicate_pair validate_batch_invoices validate_batch_transactions
    validate_batch_invoice validate_batch_transaction is_externally_occupied member_amounts
    validate_allocation_totals invoice_total transaction_total invoice_open_amount
    transaction_open_amount utc_date write_batch run_create ◌+ℤ◌
confirm-drafted = refl

confirm_settlement_batch-settles_example :
    ((k : ℕ)
      → contains k (members 300 drafted.batch_invoices) ≡ true
      → invoice_open_amount k settled ≡ ok (pos 0))
    × ((k : ℕ)
        → contains k (members 300 drafted.batch_transactions) ≡ true
        → transaction_open_amount k settled ≡ ok (pos 0))
unfolding write_batch
confirm_settlement_batch-settles_example =
    confirm_settlement_batch-settles 300 clerk items 1 100 drafted settled drafted-IsConsistent refl
      confirm-drafted

start-IsUnmatched : IsUnmatched start
start-IsUnmatched = record { no_reconciliations = refl; no_allocations = refl; no_reversals = refl }

Reach-IsConsistent_example : IsConsistent settled
unfolding write_batch
Reach-IsConsistent_example = Reach-IsConsistent start settled start-IsUnmatched (
    later (later unchanged (drafts clerk 5 purchase_payment 20000 20030 300 create-drafted))
      (confirms 300 clerk items 1 100 refl confirm-drafted))

confirm_settlement_batch-once_example :
    ((b : SettlementBatch) × (find_batch 300 drafted ≡ some b)
      × (b.status ≡ draft)
      × (b.version ≡ 1)
      × (find_batch 300 settled ≡ some (closed b)))
    × (confirm_settlement_batch 300 clerk items 2 101 settled ≡ err batch_confirmed)
unfolding run_create write_batch
confirm_settlement_batch-once_example =
    confirm_settlement_batch-once 300 clerk clerk items items 1 100 2 101 drafted settled
      confirm-drafted refl

-- Seven hours past midnight in the local time zone, on the day 20000.
abbrev early : MoneyTransaction
early = record payment { occurred_at = 20000 * day - 3600000000 }

abbrev early_start : Database
early_start = record start { transactions = early ∷ [] }

create-early :
    create_settlement_batch clerk 5 (some purchase_payment) 20000 20030 300 early_start
    ≡ ok (write_batch clerk 5 purchase_payment 20000 20030 (bill ∷ []) (early ∷ []) 300 early_start)
unfolding create-drafted
create-early = refl

early-eligible : transaction_eligible early_start 5 purchase_payment 20000 20030 early ≡ true
unfolding create-drafted
early-eligible = refl

create_settlement_batch-early_payment_example :
    confirm_settlement_batch 300 clerk items 1 100
      (write_batch clerk 5 purchase_payment 20000 20030 (bill ∷ []) (early ∷ []) 300 early_start)
    ≢ ok early_start
create_settlement_batch-early_payment_example =
    create_settlement_batch-early_payment clerk clerk 5 purchase_payment 20000 20030 300 20 early
      items 1 100 early_start
      (write_batch clerk 5 purchase_payment 20000 20030 (bill ∷ []) (early ∷ []) 300 early_start)
      early_start refl create-early refl early-eligible (omega arith)
