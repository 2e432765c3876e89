-- ===== src/Imports/Disposition.antt =====
-- What becomes of a row, given the formal records or the rows before it: `_formal_disposition_for`,
-- `_invoice_disposition`, `_invoice_rows_disposition` and `_duplicate_key` of apps/imports/services.py.
use finance_reconciliation.Prelude.{
  Bool, true, false, ◌&&◌, Option, none, some, List, find, any, ◌==◌, if◌then◌else◌,
}
use finance_reconciliation.Prelude.Int.{eqb_ℤ}
use finance_reconciliation.Prelude.Text.{Text, text_eq}
use finance_reconciliation.Money.Amount.{Amount, decimal, infinity}
use finance_reconciliation.Ledger.{
  Invoice, InvoiceStatus, normal, void, red, MoneyTransaction, invoice_direction_eq,
}
use finance_reconciliation.Imports.Rows.{
  Choice, known, unknown, date, NormalizedInvoiceRow, NormalizedTransactionRow, Normalized, invoice,
  money, RowIssue, invoice_restored, invoice_conflict, StagedRow, as_decimal, is_cents_of, same_day,
  status_eq, choice_eq,
}
use finance_reconciliation.Imports.Mapping.{TextLibrary, transaction_fingerprint}
use finance_reconciliation.Imports.Tables.{ok, or_raise, ◌>>=◌, no_fingerprint, Result, Books}

pub data Disposition : Type 0 where
  new duplicate conflict status_update : Disposition

-- `status in {RED, VOID}`
abbrev pub is_final : Choice InvoiceStatus → Bool
is_final (known normal) = false
is_final (known void) = true
is_final (known red) = true
is_final (unknown t) = false

abbrev pub is_open : Choice InvoiceStatus → Bool
is_open (known normal) = true
is_open (known void) = false
is_open (known red) = false
is_open (unknown t) = false

-- The tests on the two statuses that both dispositions end with.
unfoldable pub by_status : Choice InvoiceStatus → Choice InvoiceStatus → Disposition
by_status existing incoming =
    if choice_eq status_eq existing incoming
    then duplicate
    else if is_open existing && is_final incoming
    then status_update
    else conflict

abbrev names_match : NormalizedInvoiceRow → Option Normalized → Bool
names_match r (some (invoice source)) =
    text_eq source.seller_name r.seller_name && text_eq source.buyer_name r.buyer_name
names_match r (some (money source)) = true
names_match r none = true

abbrev source_names_match : NormalizedInvoiceRow → Option StagedRow → Bool
source_names_match r none = true
source_names_match r (some source) = names_match r source.normalized_data

-- `_invoice_business_fields_match`, with the staged rows of all batches.
unfoldable pub invoice_business_fields_match :
    List StagedRow → Invoice → NormalizedInvoiceRow → Bool
invoice_business_fields_match staged existing r =
    choice_eq invoice_direction_eq (known existing.direction) r.direction
    && text_eq existing.invoice_number r.invoice_number
    && text_eq existing.seller_tax_id r.seller_tax_id
    && text_eq existing.buyer_tax_id r.buyer_tax_id
    && same_day (date existing.issue_date) r.issue_date
    && is_cents_of existing.total_amount (as_decimal r.total_amount)
    && source_names_match r
        (find (λ s. s.batch == existing.import_batch && s.row_number == existing.source_row) staged)

-- `_invoice_disposition`
unfoldable pub invoice_disposition : List StagedRow → Invoice → NormalizedInvoiceRow → Disposition
unfolding by_status invoice_business_fields_match
invoice_disposition staged existing r =
    if invoice_business_fields_match staged existing r
    then by_status (known existing.status) r.status
    else conflict

-- `==` of two numbers of type `Decimal`
abbrev amount_eq : Amount → Amount → Bool
amount_eq (decimal a) (decimal b) = eqb_ℤ a b
amount_eq (infinity true) (infinity true) = true
amount_eq (infinity false) (infinity false) = true
amount_eq a b = false

-- `_normalized_invoice_business_fields` of two rows, compared.
unfoldable pub business_fields_eq : NormalizedInvoiceRow → NormalizedInvoiceRow → Bool
business_fields_eq a b =
    choice_eq invoice_direction_eq a.direction b.direction
    && text_eq a.invoice_number b.invoice_number
    && text_eq a.seller_tax_id b.seller_tax_id
    && text_eq a.seller_name b.seller_name
    && text_eq a.buyer_tax_id b.buyer_tax_id
    && text_eq a.buyer_name b.buyer_name
    && same_day a.issue_date b.issue_date
    && amount_eq (as_decimal a.total_amount) (as_decimal b.total_amount)

-- `_invoice_rows_disposition`
unfoldable pub invoice_rows_disposition : NormalizedInvoiceRow → NormalizedInvoiceRow → Disposition
unfolding by_status business_fields_eq
invoice_rows_disposition existing r =
    if business_fields_eq existing r then by_status existing.status r.status else conflict

-- `_invoice_conflict_issue`
unfoldable pub invoice_conflict_issue : Choice InvoiceStatus → Choice InvoiceStatus → RowIssue
invoice_conflict_issue current incoming =
    if is_final current && is_open incoming then invoice_restored else invoice_conflict

-- The query of `_formal_disposition_for`; the pair is unique in the table.
abbrev pub has_key : NormalizedInvoiceRow → Invoice → Bool
has_key r i = text_eq i.invoice_number r.invoice_number && text_eq i.seller_tax_id r.seller_tax_id

abbrev pub of_existing :
    List StagedRow → NormalizedInvoiceRow → Option Invoice → Disposition × Option Invoice
of_existing staged r none = (new, none)
of_existing staged r (some existing) = (invoice_disposition staged existing r, some existing)

abbrev pub has_fingerprint : Text → MoneyTransaction → Bool
has_fingerprint fingerprint m = text_eq m.fingerprint fingerprint

-- `_duplicate_key`
pub data DuplicateKey : Type 0 where
  invoice_key : Text → Text → DuplicateKey
  transaction_key : Text → DuplicateKey

abbrev pub key_eq : DuplicateKey → DuplicateKey → Bool
key_eq (invoice_key a b) (invoice_key c d) = text_eq a c && text_eq b d
key_eq (transaction_key a) (transaction_key b) = text_eq a b
key_eq (invoice_key a b) (transaction_key c) = false
key_eq (transaction_key a) (invoice_key b c) = false

module _ (library : TextLibrary) where
  abbrev pub fingerprint : NormalizedTransactionRow → Result Text
  fingerprint r = or_raise (transaction_fingerprint library r) no_fingerprint

  -- `_formal_disposition_for`
  unfoldable pub formal_disposition_for :
      List StagedRow → Books → Normalized → Result (Disposition × Option Invoice)
  unfolding invoice_disposition transaction_fingerprint
  formal_disposition_for staged books (invoice r) =
      ok (of_existing staged r (find (has_key r) books.invoices))
  formal_disposition_for staged books (money r) = do
    print ← fingerprint r
    ok (if any (has_fingerprint print) books.transactions then duplicate else new, none)

  unfoldable pub duplicate_key : Normalized → Result DuplicateKey
  unfolding transaction_fingerprint
  duplicate_key (invoice r) = ok (invoice_key r.invoice_number r.seller_tax_id)
  duplicate_key (money r) = do print ← fingerprint r; ok (transaction_key print)
