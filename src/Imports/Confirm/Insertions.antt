-- ===== src/Imports/Confirm/Insertions.antt =====
-- What `_post_normalized_row` and `_update_invoice_status` of apps/imports/services.py do to the tables
-- of formal records.
use finance_reconciliation.Prelude.{
  ℕ, zero, suc, ◌||◌, Option, none, some, List, [], ◌∷◌, ◌++◌, any, ◌==◌, if◌then◌else◌,
}
use finance_reconciliation.Prelude.Int.{ℤ, pos, negsuc}
use finance_reconciliation.Money.Amount.{Amount}
use finance_reconciliation.Ledger.{Invoice, InvoiceStatus, MoneyTransaction}
use finance_reconciliation.Imports.Rows.{Choice, known, unknown, NormalizedInvoiceRow}
use finance_reconciliation.Imports.Tables.{ImportAuditLog, Books}
use finance_reconciliation.Imports.Disposition.{has_key, has_fingerprint}

-- The variables of the loop, with the formal records and the audit log.
pub record Posting : Type 0 where
  pub books : Books
  pub log : List ImportAuditLog
  pub new_duplicates : ℕ
  pub new_errors : ℕ

-- What an insertion comes to: the new row, or an `IntegrityError`.
pub data Insertion : Type 0 where
  inserted : Books → Insertion
  refused : Insertion

-- A value outside of the choices has an issue, so that its row is not posted; a column of a choice is
-- not tested by the database, which the model leaves out here.
abbrev pub known_of : {A : Type 0} → Choice A → Option A
known_of (known a) = some a
known_of (unknown t) = none

-- The constraints that an insertion meets: the primary key, `uniq_invoice_number_seller_tax_id` or the
-- unique fingerprint, and the check that the amount is positive, here of its cents.
abbrev pub positive_cents : ℤ → Option ℕ
positive_cents (pos zero) = none
positive_cents (pos (suc n)) = some (suc n)
positive_cents (negsuc n) = none

abbrev pub add_invoice : Books → NormalizedInvoiceRow → Invoice → Option ℕ → Insertion
add_invoice books r i none = refused
add_invoice books r i (some cents) =
    if any (λ j. j.id == i.id || has_key r j) books.invoices
    then refused
    else inserted (record books { invoices = books.invoices ++ i ∷ [] })

abbrev pub add_transaction : Books → MoneyTransaction → Option ℕ → Insertion
add_transaction books m none = refused
add_transaction books m (some cents) =
    if any (λ n. n.id == m.id || has_fingerprint m.fingerprint n) books.transactions
    then refused
    else inserted (record books { transactions = books.transactions ++ m ∷ [] })

abbrev pub or_zero : Option ℕ → ℕ
or_zero none = 0
or_zero (some n) = n

-- A nullable column.
abbrev pub column? : (Amount → Option ℤ) → Option Amount → Option (Option ℤ)
column? column none = some none
column? column (some a) = elim (column a) [ none ↦ none | some z ↦ some (some z) ]

-- The row that a status update replaces, with its new status.
abbrev pub set_status : ℕ → InvoiceStatus → List Invoice → List Invoice
set_status k status [] = []
set_status k status (i ∷ rows) =
    (if i.id == k then record i { status = status } else i) ∷ set_status k status rows
