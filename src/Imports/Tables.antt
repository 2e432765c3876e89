-- ===== src/Imports/Tables.antt =====
-- The tables that an import reads and writes, its exceptions, and what it takes from outside: the
-- conversion of amounts by the database, and what other sessions commit meanwhile.
pub use finance_reconciliation.Prelude.Outcome.{
  Outcome, ok, err, guard, raise_if, or_raise, ◌>>=◌, ◌>>◌, >>=-eq-ok, >>-eq-ok, guard-eq-ok,
  raise_if-eq-ok, or_raise-eq-ok, ok-injective,
}
use finance_reconciliation.Prelude.{ℕ, Option, List}
use finance_reconciliation.Prelude.Int.{ℤ}
use finance_reconciliation.Prelude.Text.{Text}
use finance_reconciliation.Money.Amount.{Amount}
use finance_reconciliation.Accounts.Roles.{Directory}
use finance_reconciliation.Ledger.{Invoice, InvoiceStatus, MoneyTransaction}
use finance_reconciliation.Imports.Rows.{ImportBatch, SourceFile, StagedRow}
use finance_reconciliation.Imports.Mapping.{TextLibrary}
use finance_reconciliation.Imports.Matching.{Registers}

pub data ImportFailure : Type 0 where
  -- `PermissionDenied`, `DoesNotExist`, `KeyError`
  permission_denied does_not_exist key_error : ImportFailure
  -- `DuplicateSourceFileError`, `UnsupportedTemplateError`, and a `ValidationError` of the upload
  duplicate_source_file unsupported_template bad_upload : ImportFailure
  -- `RowValidationError`
  too_many_rows kind_not_supported kind_not_detected kind_not_recognised : ImportFailure
  no_such_party no_such_account snapshot_conflict : ImportFailure
  -- what a parser raises, by its message
  parser_failure : Text → ImportFailure
  -- `ValueError`: an invalid source kind; a row that has no fingerprint
  bad_source_kind no_fingerprint : ImportFailure
  -- `IntegrityError`, and what a column refuses to hold (`DataError`)
  integrity_error data_error : ImportFailure

abbrev pub Result : Type 0 → Type 0
Result A = Outcome ImportFailure A

-- `ImportResult.as_dict`
pub record ImportResult : Type 0 where
  pub batch_id : ℕ
  pub posted_rows : ℕ
  pub duplicate_rows : ℕ
  pub error_rows : ℕ

-- `AuditLog.action` with its `changes`.
pub data ImportAction : Type 0 where
  import_staged import_confirmed : ImportResult → ImportAction
  -- from which status to which, by which batch and row
  invoice_status_changed : InvoiceStatus → InvoiceStatus → ℕ → ℕ → ImportAction

pub record ImportAuditLog : Type 0 where
  pub actor : Option ℕ
  pub action : ImportAction
  pub target_id : ℕ

pub record AccountBalanceSnapshot : Type 0 where
  pub account : ℕ
  pub as_of : ℕ
  -- in cents
  pub balance : ℤ
  pub source_batch : ℕ

-- The formal records.
pub record Books : Type 0 where
  pub invoices : List Invoice
  pub transactions : List MoneyTransaction

-- Every table is the list of its rows, the staged rows of a batch in order of their numbers.
pub record Tables : Type 0 where
  pub directory : Directory
  pub registers : Registers
  pub files : List SourceFile
  pub batches : List ImportBatch
  pub rows : List StagedRow
  pub books : Books
  pub snapshots : List AccountBalanceSnapshot
  pub audit : List ImportAuditLog

-- `column` is the number of cents that a column with two decimal places holds for an amount, `none`
-- where the driver or the database refuses it. `before_read` and `before_write` are the formal records
-- as other sessions have left them when the staged row of a number is compared with them, and when it
-- is inserted; `before_snapshot` likewise the snapshots when one of an account is inserted.
pub record Surroundings : Type 0 where
  pub library : TextLibrary
  pub column : Amount → Option ℤ
  pub before_read : ℕ → Books → Books
  pub before_write : ℕ → Books → Books
  pub before_snapshot : ℕ → List AccountBalanceSnapshot → List AccountBalanceSnapshot
