-- ===== src/Reconciliation/Result.antt =====
-- The exceptions of apps/reconciliation as values: a constructor for each message that the services
-- raise. An operation runs in `transaction.atomic`, so that an exception undoes what it wrote: a
-- failed result carries no database.
pub use finance_reconciliation.Prelude.Outcome.{
  Outcome, ok, err, guard, raise_if, or_raise, ◌>>=◌, ◌>>◌, >>=-eq-ok, >>-eq-ok, guard-eq-ok,
  raise_if-eq-ok, or_raise-eq-ok, ok-injective,
}
use finance_reconciliation.Prelude.Int.{ℤ}

pub data Failure : Type 0 where
  -- `PermissionDenied`
  permission_denied : Failure
  -- `DoesNotExist`
  does_not_exist : Failure
  -- `decimal.InvalidOperation`, `TypeError`
  invalid_operation type_error : Failure
  -- a `KeyError`
  key_error : Failure
  -- `ValidationError`, in services.py
  no_allocations bad_direction bad_mode batch_needs_batch_mode batch_mode_needs_batch : Failure
  amount_not_decimal amount_not_positive amount_too_precise : Failure
  invoice_missing transaction_missing : Failure
  invoice_void direction_mismatch counterparty_mismatch : Failure
  stale_page : Failure
  -- with the amount that stays open
  partial_unconfirmed : ℤ → Failure
  transaction_overdrawn invoice_overdrawn : Failure
  reason_empty already_reversed : Failure
  -- `ValidationError`, in settlements.py
  period_reversed bad_batch_direction counterparty_missing no_open_invoices no_open_transactions :
      Failure
  batch_confirmed batch_not_draft batch_stale duplicate_allocation : Failure
  batch_without_invoices batch_without_transactions : Failure
  invoice_not_in_batch transaction_not_in_batch batch_incomplete : Failure
  batch_counterparty_mismatch batch_direction_mismatch : Failure
  invoice_out_of_period transaction_out_of_period : Failure
  externally_occupied invoice_not_open transaction_not_open totals_mismatch : Failure
  -- `ValueError`, in candidates.py
  bad_date_window : Failure

abbrev pub Result : Type 0 → Type 0
Result A = Outcome Failure A
