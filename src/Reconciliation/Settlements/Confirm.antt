-- ===== src/Reconciliation/Settlements/Confirm.antt =====
-- `confirm_settlement_batch` of apps/reconciliation/settlements.py, with its validation.
use finance_reconciliation.Prelude.{
  ℕ, ◌+◌, Bool, true, false, not, ◌&&◌, ◌||◌, Option, none, some, List, [], ◌∷◌, map, length, all,
  any, find, contains, Dict, ◌==◌, if◌then◌else◌,
}
use finance_reconciliation.Prelude.Int.{ℤ, pos, leb_ℤ}
use finance_reconciliation.Accounts.Roles.{Actor, is_finance_actor}
use finance_reconciliation.Ledger.{
  Invoice, MoneyTransaction, invoice_direction_eq, money_direction_eq, utc_date,
}
use finance_reconciliation.Reconciliation.Result.{
  Result, ok, guard, raise_if, or_raise, ◌>>=◌, ◌>>◌, permission_denied, does_not_exist,
  batch_confirmed, batch_stale, duplicate_allocation, batch_without_invoices,
  batch_without_transactions, no_allocations, invoice_not_in_batch, transaction_not_in_batch,
  batch_incomplete, batch_counterparty_mismatch, batch_direction_mismatch, invoice_out_of_period,
  transaction_out_of_period, externally_occupied, invoice_not_open, transaction_not_open,
}
use finance_reconciliation.Reconciliation.Database.{
  batch, SettlementStatus, draft, confirmed, Reconciliation, SettlementBatch, BatchItem, Database,
  find_invoice, find_transaction, find_reconciliation, is_active,
}
use finance_reconciliation.Reconciliation.Queries.{invoice_open_amount, transaction_open_amount}
use finance_reconciliation.Reconciliation.Services.Validation.{
  AllocationInput, Request, invoice_direction_for, money_direction_for, same_counterparty,
}
use finance_reconciliation.Reconciliation.Services.Operations.{create_reconciliation}
use finance_reconciliation.Reconciliation.Settlements.Drafts.{within}
use finance_reconciliation.Reconciliation.Settlements.Sums.{validate_allocation_totals}

abbrev pub find_batch : ℕ → Database → Option SettlementBatch
find_batch k db = find (λ b. b.id == k) db.batches

abbrev pub is_draft : SettlementStatus → Bool
is_draft draft = true
is_draft confirmed = false

-- `_validate_batch_version`. A status is one of two, so the second test of the source never fails.
unfoldable pub validate_batch_version : SettlementBatch → ℕ → Result (Unit {0})
validate_batch_version b version = do
  guard (is_draft b.status) batch_confirmed
  guard (version == b.version) batch_stale

-- The keys of the members, from the rows that join them to the batch.
abbrev pub members : ℕ → List BatchItem → List ℕ
members b [] = []
members b (row ∷ rows) =
    let rest = members b rows in if row.batch == b then row.item ∷ rest else rest

-- `len(pairs) != len(set(pairs))`
unfoldable pub has_duplicate_pair : List AllocationInput → Bool
has_duplicate_pair [] = false
has_duplicate_pair (i ∷ items) =
    any (λ j. j.invoice_id == i.invoice_id && j.transaction_id == i.transaction_id) items
    || has_duplicate_pair items

-- `a <= b` of two sets
abbrev pub subset : List ℕ → List ℕ → Bool
subset as_set of_set = all (λ k. contains k of_set) as_set

-- The tests of `_validate_batch_allocations` on the keys alone.
unfoldable pub validate_members : List AllocationInput → List ℕ → List ℕ → Result (Unit {0})
validate_members items batch_invoices batch_transactions = do
  raise_if (has_duplicate_pair items) duplicate_allocation
  let invoice_ids = map (λ i. i.invoice_id) items
  let transaction_ids = map (λ i. i.transaction_id) items
  raise_if (length batch_invoices == 0) batch_without_invoices
  raise_if (length batch_transactions == 0) batch_without_transactions
  raise_if (length items == 0) no_allocations
  guard (subset invoice_ids batch_invoices) invoice_not_in_batch
  guard (subset transaction_ids batch_transactions) transaction_not_in_batch
  guard (subset batch_invoices invoice_ids && subset batch_transactions transaction_ids)
      batch_incomplete

-- One turn of each loop of `_validate_batch_records`. The day of a payment is here that of UTC.
unfoldable pub validate_batch_invoice : SettlementBatch → Invoice → Result (Unit {0})
validate_batch_invoice b i = do
  guard (i.counterparty == b.counterparty) batch_counterparty_mismatch
  guard (invoice_direction_eq i.direction (invoice_direction_for b.direction))
      batch_direction_mismatch
  guard (within b.period_start b.period_end i.issue_date) invoice_out_of_period

unfoldable pub validate_batch_transaction : SettlementBatch → MoneyTransaction → Result (Unit {0})
validate_batch_transaction b m = do
  guard (same_counterparty b.counterparty m.counterparty) batch_counterparty_mismatch
  guard (money_direction_eq m.direction (money_direction_for b.direction)) batch_direction_mismatch
  guard (within b.period_start b.period_end (utc_date m.occurred_at)) transaction_out_of_period

-- `in_bulk` leaves a key out that has no row.
abbrev pub if_found : {A : Type 0} → Option A → (A → Result (Unit {0})) → Result (Unit {0})
if_found none check = ok tt
if_found (some a) check = check a

unfoldable pub validate_batch_invoices : SettlementBatch → Database → List ℕ → Result (Unit {0})
validate_batch_invoices b db [] = ok tt
validate_batch_invoices b db (k ∷ ks) = do
  if_found (find_invoice k db) (validate_batch_invoice b)
  validate_batch_invoices b db ks

unfoldable pub validate_batch_transactions : SettlementBatch → Database → List ℕ → Result (Unit {0})
validate_batch_transactions b db [] = ok tt
validate_batch_transactions b db (k ∷ ks) = do
  if_found (find_transaction k db) (validate_batch_transaction b)
  validate_batch_transactions b db ks

-- `exclude(reconciliation__settlement_batch=batch)` keeps the row.
abbrev pub outside_batch : ℕ → Option Reconciliation → Bool
outside_batch b none = true
outside_batch b (some r) = not (same_counterparty b r.settlement_batch)

-- `externally_occupied`
unfoldable pub is_externally_occupied : ℕ → List ℕ → List ℕ → Database → Bool
is_externally_occupied b invoice_ids transaction_ids db =
    any
      (λ a.
        (contains a.invoice invoice_ids || contains a.transaction transaction_ids)
        && is_active db.reversals a.reconciliation
        && outside_batch b (find_reconciliation a.reconciliation db))
      db.allocations

-- The dict comprehension over the members of the batch.
unfoldable pub member_amounts : (ℕ → Result ℤ) → List ℕ → Result (Dict ℤ)
member_amounts open_amount [] = ok []
member_amounts open_amount (k ∷ ks) = do
  amount ← open_amount k
  rest ← member_amounts open_amount ks
  ok ((k, amount) ∷ rest)

-- `_validate_batch_allocations`
unfoldable pub validate_batch_allocations :
    SettlementBatch → List AllocationInput → Database → Result (Unit {0})
validate_batch_allocations b items db = do
  let invoice_ids = members b.id db.batch_invoices
  let transaction_ids = members b.id db.batch_transactions
  validate_members items invoice_ids transaction_ids
  validate_batch_invoices b db invoice_ids
  validate_batch_transactions b db transaction_ids
  raise_if (is_externally_occupied b.id invoice_ids transaction_ids db) externally_occupied
  invoice_open ← member_amounts (λ k. invoice_open_amount k db) invoice_ids
  transaction_open ← member_amounts (λ k. transaction_open_amount k db) transaction_ids
  raise_if (any (λ e. leb_ℤ e.1 (pos 0)) invoice_open) invoice_not_open
  raise_if (any (λ e. leb_ℤ e.1 (pos 0)) transaction_open) transaction_not_open
  validate_allocation_totals items invoice_open transaction_open

-- The call of `create_reconciliation` in `confirm_settlement_batch`.
abbrev pub batch_request : Actor → SettlementBatch → List AllocationInput → Request
batch_request actor b items = record {
  actor = actor;
  direction = some b.direction;
  allocations = items;
  note = [];
  mode = some batch;
  settlement_batch = some b.id;
  expected_invoice_open_amounts = none;
  expected_transaction_open_amounts = none;
  allow_partial = true;
}

-- `batch.save(update_fields=["status", "version"])`
abbrev pub save_confirmed : SettlementBatch → List SettlementBatch → List SettlementBatch
save_confirmed b [] = []
save_confirmed b (row ∷ rows) =
    let rest = save_confirmed b rows in
    if row.id == b.id
    then record row { status = confirmed; version = b.version + 1 } ∷ rest
    else row ∷ rest

-- `confirm_settlement_batch`
unfoldable pub confirm_settlement_batch :
    ℕ → Actor → List AllocationInput → ℕ → ℕ → Database → Result Database
confirm_settlement_batch batch_id actor items version fresh db = do
  guard (is_finance_actor actor db.directory) permission_denied
  b ← or_raise (find_batch batch_id db) does_not_exist
  validate_batch_version b version
  validate_batch_allocations b items db
  after ← create_reconciliation (batch_request actor b items) fresh db
  ok (record after { batches = save_confirmed b after.batches })
