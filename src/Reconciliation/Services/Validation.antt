-- ===== src/Reconciliation/Services/Validation.antt =====
-- `_validate_allocations` of apps/reconciliation/services.py, with what it calls.
use finance_reconciliation.Prelude.{
  ℕ, Bool, true, false, ◌&&◌, Option, none, some, List, [], ◌∷◌, ltb, all, contains, Dict, lookup,
  keys, add_to, ◌==◌, if◌then◌else◌,
}
use finance_reconciliation.Prelude.Int.{ℤ, pos, negsuc, sub_ℕ, ◌-ℤ◌, ltb_ℤ, eqb_ℤ}
use finance_reconciliation.Prelude.Text.{Text}
use finance_reconciliation.Money.Amount.{
  Amount, decimal, nan, infinity, integer, foreign, round_cents, max_coefficient, is_whole_cents,
}
use finance_reconciliation.Accounts.Roles.{Actor}
use finance_reconciliation.Ledger.{
  InvoiceDirection, input, output, MoneyDirection, inflow, outflow, Invoice, MoneyTransaction,
  invoice_direction_eq, money_direction_eq, is_normal,
}
use finance_reconciliation.Reconciliation.Result.{
  Failure, invalid_operation, key_error, amount_not_decimal, amount_not_positive,
  amount_too_precise, invoice_missing, transaction_missing, invoice_void, direction_mismatch,
  counterparty_mismatch, stale_page, partial_unconfirmed, transaction_overdrawn, invoice_overdrawn,
  Result, ok, err, guard, raise_if, or_raise, ◌>>=◌, ◌>>◌,
}
use finance_reconciliation.Reconciliation.Database.{
  Direction, purchase_payment, sales_receipt, Mode, Database, find_invoice, find_transaction,
}
use finance_reconciliation.Reconciliation.Queries.{invoice_allocated, transaction_allocated}

pub record AllocationInput : Type 0 where
  pub invoice_id : ℕ
  pub transaction_id : ℕ
  pub amount : Amount

-- The arguments of `create_reconciliation`. `direction` and `mode` are `none` where the caller
-- passes a string that is no member of the enumeration. The amounts that the page showed are in
-- cents.
pub record Request : Type 0 where
  pub actor : Actor
  pub direction : Option Direction
  pub allocations : List AllocationInput
  pub note : Text
  pub mode : Option Mode
  pub settlement_batch : Option ℕ
  pub expected_invoice_open_amounts : Option (Dict ℤ)
  pub expected_transaction_open_amounts : Option (Dict ℤ)
  pub allow_partial : Bool

-- `_directions_for`
abbrev pub invoice_direction_for : Direction → InvoiceDirection
invoice_direction_for purchase_payment = input
invoice_direction_for sales_receipt = output

abbrev pub money_direction_for : Direction → MoneyDirection
money_direction_for purchase_payment = outflow
money_direction_for sales_receipt = inflow

-- The three tests of an amount in `_validate_allocations`; returns the amount in cents.
unfoldable pub checked_cents : Amount → Result ℕ
checked_cents (decimal (pos u)) = do
  raise_if (u == 0) amount_not_positive
  raise_if (ltb max_coefficient (round_cents u)) invalid_operation
  guard (is_whole_cents u) amount_too_precise
  ok (round_cents u)
checked_cents (decimal (negsuc n)) = err amount_not_positive
checked_cents nan = err invalid_operation
checked_cents (infinity true) = err amount_not_positive
checked_cents (infinity false) = err invalid_operation
checked_cents (integer z) = err amount_not_decimal
checked_cents foreign = err amount_not_decimal

abbrev pub same_counterparty : ℕ → Option ℕ → Bool
same_counterparty c none = false
same_counterparty c (some d) = c == d

-- The tests on the two records that an item joins.
unfoldable pub validate_pair : Direction → Invoice → MoneyTransaction → Result (Unit {0})
validate_pair direction invoice money = do
  guard (is_normal invoice.status) invoice_void
  guard
      (invoice_direction_eq invoice.direction (invoice_direction_for direction)
        && money_direction_eq money.direction (money_direction_for direction))
      direction_mismatch
  guard (same_counterparty invoice.counterparty money.counterparty) counterparty_mismatch

-- One turn of the loop of `_validate_allocations`.
unfoldable pub validate_item : Direction → Database → AllocationInput → Result ℕ
validate_item direction db item = do
  cents ← checked_cents item.amount
  invoice ← or_raise (find_invoice item.invoice_id db) invoice_missing
  money ← or_raise (find_transaction item.transaction_id db) transaction_missing
  validate_pair direction invoice money
  ok cents

-- `requested_invoice_amounts` and `requested_transaction_amounts`
pub record Requested : Type 0 where
  pub by_invoice : Dict ℕ
  pub by_transaction : Dict ℕ

abbrev pub tally : AllocationInput → ℕ → Requested → Requested
tally item cents acc = record {
  by_invoice = add_to item.invoice_id cents acc.by_invoice;
  by_transaction = add_to item.transaction_id cents acc.by_transaction;
}

unfoldable pub validate_items :
    Direction → Database → List AllocationInput → Requested → Result Requested
validate_items direction db [] acc = ok acc
validate_items direction db (item ∷ items) acc = do
  cents ← validate_item direction db item
  validate_items direction db items (tally item cents acc)

-- `invoices[invoice_id].total_amount - invoice_allocated[invoice_id]`
unfoldable pub current_invoice_open : Database → ℕ → Result ℤ
current_invoice_open db k = do
  invoice ← or_raise (find_invoice k db) key_error
  ok (sub_ℕ invoice.total_amount (invoice_allocated k db))

unfoldable pub current_transaction_open : Database → ℕ → Result ℤ
current_transaction_open db k = do
  money ← or_raise (find_transaction k db) key_error
  ok (sub_ℕ money.amount (transaction_allocated k db))

-- The dict comprehension that pairs each requested key with its open amount.
unfoldable pub open_amounts : (ℕ → Result ℤ) → Dict ℕ → Result (Dict ℤ)
open_amounts current [] = ok []
open_amounts current ((k, v) ∷ requested) = do
  amount ← current k
  rest ← open_amounts current requested
  ok ((k, amount) ∷ rest)

abbrev pub matches : Dict ℤ → ℕ × ℤ → Bool
matches expected (k, amount) = elim (lookup k expected) [ none ↦ false | some e ↦ eqb_ℤ e amount ]

-- `_validate_expected_open_amounts`
unfoldable pub validate_expected : Option (Dict ℤ) → Dict ℤ → Result (Unit {0})
validate_expected none current = ok tt
validate_expected (some expected) current =
    guard
      (all (λ k. contains k (keys current)) (keys expected)
        && all (λ k. contains k (keys expected)) (keys current)
        && all (matches expected) current)
      stale_page

-- The loop that runs when `allow_partial` is false.
unfoldable pub require_settled : Dict ℕ → Dict ℤ → Result (Unit {0})
require_settled [] current = ok tt
require_settled ((k, requested) ∷ rest) current = do
  amount ← or_raise (lookup k current) key_error
  raise_if (ltb_ℤ (pos 0) (amount -ℤ pos requested)) (partial_unconfirmed (amount -ℤ pos requested))
  require_settled rest current

-- `if requested > open_amounts[k]: raise …`, for every key
unfoldable pub check_capacity : Failure → Dict ℕ → Dict ℤ → Result (Unit {0})
check_capacity failure [] current = ok tt
check_capacity failure ((k, requested) ∷ rest) current = do
  amount ← or_raise (lookup k current) key_error
  raise_if (ltb_ℤ amount (pos requested)) failure
  check_capacity failure rest current

-- `_validate_allocations`
unfoldable pub validate_allocations : Request → Direction → Database → Result (Unit {0})
validate_allocations request direction db = do
  requested ←
      validate_items direction db request.allocations
        (record { by_invoice = []; by_transaction = [] })
  invoice_open ← open_amounts (current_invoice_open db) requested.by_invoice
  transaction_open ← open_amounts (current_transaction_open db) requested.by_transaction
  validate_expected request.expected_invoice_open_amounts invoice_open
  validate_expected request.expected_transaction_open_amounts transaction_open
  (if request.allow_partial then ok tt else require_settled requested.by_invoice invoice_open)
  check_capacity transaction_overdrawn requested.by_transaction transaction_open
  check_capacity invoice_overdrawn requested.by_invoice invoice_open
