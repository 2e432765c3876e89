-- ===== src/Reconciliation/Settlements/Accepted.antt =====
-- What a call of `confirm_settlement_batch` that returns has checked and written.
use finance_reconciliation.Prelude.{ℕ, ◌≡◌, sym, true, Dict, List, all, some}
use finance_reconciliation.Prelude.Int.{ℤ}
use finance_reconciliation.Accounts.Roles.{Actor}
use finance_reconciliation.Reconciliation.Result.{
  ok, guard, raise_if, or_raise, >>=-eq-ok, >>-eq-ok, guard-eq-ok, or_raise-eq-ok, ok-injective,
  permission_denied, does_not_exist, externally_occupied, invoice_not_open, transaction_not_open,
  type_error, totals_mismatch,
}
use finance_reconciliation.Reconciliation.Database.{SettlementBatch, Database}
use finance_reconciliation.Reconciliation.Queries.{invoice_open_amount, transaction_open_amount}
use finance_reconciliation.Reconciliation.Services.Validation.{AllocationInput}
use finance_reconciliation.Reconciliation.Services.Operations.{create_reconciliation}
use finance_reconciliation.Reconciliation.Settlements.Sums.{
  invoice_total, transaction_total, equals, validate_allocation_totals,
}
use finance_reconciliation.Reconciliation.Settlements.Confirm.{
  find_batch, validate_batch_version, members, validate_members, validate_batch_invoices,
  validate_batch_transactions, member_amounts, validate_batch_allocations, batch_request,
  save_confirmed, confirm_settlement_batch,
}

pub record BatchAccepted (b : SettlementBatch) (items : List AllocationInput) (db : Database)
    : Type 0 where
  pub invoice_open : Dict ℤ
  pub transaction_open : Dict ℤ
  pub transactions_in_period :
      validate_batch_transactions b db (members b.id db.batch_transactions) ≡ ok tt
  pub invoices_opened :
      member_amounts (λ k. invoice_open_amount k db) (members b.id db.batch_invoices)
      ≡ ok invoice_open
  pub transactions_opened :
      member_amounts (λ k. transaction_open_amount k db) (members b.id db.batch_transactions)
      ≡ ok transaction_open
  pub invoices_met : all (λ e. equals (invoice_total e.0 items) e.1) invoice_open ≡ true
  pub transactions_met : all (λ e. equals (transaction_total e.0 items) e.1) transaction_open ≡ true

pub record TotalsMet (items : List AllocationInput) (invoice_open transaction_open : Dict ℤ)
    : Type 0 where
  pub invoices_met : all (λ e. equals (invoice_total e.0 items) e.1) invoice_open ≡ true
  pub transactions_met : all (λ e. equals (transaction_total e.0 items) e.1) transaction_open ≡ true

validate_allocation_totals-TotalsMet :
    (items : List AllocationInput) (invoice_open transaction_open : Dict ℤ)
    → validate_allocation_totals items invoice_open transaction_open ≡ ok tt
    → TotalsMet items invoice_open transaction_open
unfolding validate_allocation_totals
validate_allocation_totals-TotalsMet items invoice_open transaction_open h =
    let (numeric, h₁) = >>-eq-ok (guard _ type_error) _ h in
    let (invoices, transactions) = >>-eq-ok (guard _ totals_mismatch) _ h₁ in
    record {
      invoices_met = guard-eq-ok _ totals_mismatch invoices;
      transactions_met = guard-eq-ok _ totals_mismatch transactions;
    }

pub validate_batch_allocations-BatchAccepted :
    (b : SettlementBatch) (items : List AllocationInput) (db : Database)
    → validate_batch_allocations b items db ≡ ok tt
    → BatchAccepted b items db
unfolding validate_batch_allocations
validate_batch_allocations-BatchAccepted b items db h =
    let (keys, h₁) = >>-eq-ok (validate_members _ _ _) _ h in
    let (invoices, h₂) = >>-eq-ok (validate_batch_invoices _ _ _) _ h₁ in
    let (transactions, h₃) = >>-eq-ok (validate_batch_transactions _ _ _) _ h₂ in
    let (alone, h₄) = >>-eq-ok (raise_if _ externally_occupied) _ h₃ in
    let (invoice_open, invoices_opened, h₅) = >>=-eq-ok (member_amounts _ _) _ h₄ in
    let (transaction_open, transactions_opened, h₆) = >>=-eq-ok (member_amounts _ _) _ h₅ in
    let (some_invoice, h₇) = >>-eq-ok (raise_if _ invoice_not_open) _ h₆ in
    let (some_transaction, h₈) = >>-eq-ok (raise_if _ transaction_not_open) _ h₇ in
    let met = validate_allocation_totals-TotalsMet items invoice_open transaction_open h₈ in
    record {
      invoice_open = invoice_open;
      transaction_open = transaction_open;
      transactions_in_period = transactions;
      invoices_opened = invoices_opened;
      transactions_opened = transactions_opened;
      invoices_met = met.invoices_met;
      transactions_met = met.transactions_met;
    }

pub record Confirmed (batch_id : ℕ) (actor : Actor) (items : List AllocationInput)
    (version fresh : ℕ) (db db' : Database) : Type 0 where
  pub b : SettlementBatch
  pub found : find_batch batch_id db ≡ some b
  pub current : validate_batch_version b version ≡ ok tt
  pub accepted : BatchAccepted b items db
  pub after : Database
  pub created : create_reconciliation (batch_request actor b items) fresh db ≡ ok after
  pub written : db' ≡ record after { batches = save_confirmed b after.batches }

pub confirm_settlement_batch-Confirmed :
    (batch_id : ℕ) (actor : Actor) (items : List AllocationInput) (version fresh : ℕ)
    (db db' : Database)
    → confirm_settlement_batch batch_id actor items version fresh db ≡ ok db'
    → Confirmed batch_id actor items version fresh db db'
unfolding confirm_settlement_batch
confirm_settlement_batch-Confirmed batch_id actor items version fresh db db' h =
    let (by_finance, h₁) = >>-eq-ok (guard _ permission_denied) _ h in
    let (b, found, h₂) = >>=-eq-ok (or_raise (find_batch batch_id db) does_not_exist) _ h₁ in
    let (current, h₃) = >>-eq-ok (validate_batch_version b version) _ h₂ in
    let (checks, h₄) = >>-eq-ok (validate_batch_allocations b items db) _ h₃ in
    let (after, created, h₅) = >>=-eq-ok (create_reconciliation _ fresh db) _ h₄ in
    record {
      b = b;
      found = or_raise-eq-ok _ _ found;
      current = current;
      accepted = validate_batch_allocations-BatchAccepted b items db checks;
      after = after;
      created = created;
      written = sym (ok-injective h₅);
    }
