-- ===== src/Imports/Checks.antt =====
-- The tests that apps/imports/validation.py makes of a row.
use finance_reconciliation.Prelude.{
  zero, suc, Bool, true, false, not, ◌||◌, Option, none, some, List, [], ◌∷◌, ◌++◌, is_some,
  if◌then◌else◌,
}
use finance_reconciliation.Prelude.Int.{pos, negsuc}
use finance_reconciliation.Prelude.Text.{Text, is_empty, strip}
use finance_reconciliation.Money.Amount.{Amount, decimal, nan, infinity, integer, foreign}
use finance_reconciliation.Ledger.{
  InvoiceDirection, input, output, MoneyChannel, invoice_direction_eq,
}
use finance_reconciliation.Imports.Coverage.{SourceKind, input_invoice, output_invoice}
use finance_reconciliation.Imports.Rows.{
  Choice, known, unknown, DayValue, date, no_date, InstantValue, aware, naive, no_datetime,
  NormalizedInvoiceRow, NormalizedTransactionRow, Normalized, invoice, money, RowIssue,
  not_normalized, source_kind_mismatch, bad_direction, no_invoice_number, no_seller_tax_id,
  no_buyer_tax_id, bad_date, bad_amount, bad_status, bad_channel, bad_datetime, no_counterparty,
  counterparty_ambiguous, no_account, account_ambiguous, ParsedRow,
}
use finance_reconciliation.Imports.Mapping.{TextLibrary}
use finance_reconciliation.Imports.Matching.{
  MappingResult, Registers, channel_eq, resolve_funding_account, resolve_invoice_counterparty,
  resolve_transaction_counterparty,
}

-- `_has_text`, of a string
unfoldable pub has_text : Text → Bool
unfolding strip
has_text value = not (is_empty (strip value))

-- `_positive_decimal`
unfoldable pub positive_decimal : Amount → Bool
positive_decimal (decimal (pos zero)) = false
positive_decimal (decimal (pos (suc n))) = true
positive_decimal (decimal (negsuc n)) = false
positive_decimal (integer (pos zero)) = false
positive_decimal (integer (pos (suc n))) = true
positive_decimal (integer (negsuc n)) = false
positive_decimal (infinity negative) = not negative
positive_decimal nan = false
positive_decimal foreign = false

-- `if test: issues.append(issue)`
abbrev issue_if : Bool → RowIssue → List RowIssue
issue_if true issue = issue ∷ []
issue_if false issue = []

abbrev is_known : {A : Type 0} → Choice A → Bool
is_known (known a) = true
is_known (unknown t) = false

abbrev is_date : DayValue → Bool
is_date (date d) = true
is_date no_date = false

abbrev is_aware : InstantValue → Bool
is_aware (aware t ahead) = true
is_aware (naive t) = false
is_aware no_datetime = false

abbrev is_direction : InvoiceDirection → Choice InvoiceDirection → Bool
is_direction d (known e) = invoice_direction_eq d e
is_direction d (unknown t) = false

abbrev counterparty_issue : MappingResult → RowIssue
counterparty_issue m = if m.ambiguous then counterparty_ambiguous else no_counterparty

abbrev account_issue : MappingResult → RowIssue
account_issue m = if m.ambiguous then account_ambiguous else no_account

-- The tests of `_validate_invoice` on the fields.
abbrev invoice_field_issues : InvoiceDirection → NormalizedInvoiceRow → List RowIssue
invoice_field_issues expected r =
    issue_if (not (is_direction expected r.direction)) bad_direction
    ++ issue_if (not (has_text r.invoice_number)) no_invoice_number
    ++ issue_if (not (has_text r.seller_tax_id)) no_seller_tax_id
    ++ issue_if (not (has_text r.buyer_tax_id)) no_buyer_tax_id
    ++ issue_if (not (is_date r.issue_date)) bad_date
    ++ issue_if (not (positive_decimal r.total_amount)) bad_amount
    ++ issue_if (not (is_known r.status)) bad_status

abbrev counterparty_issues : MappingResult → List RowIssue → List RowIssue
counterparty_issues m [] = issue_if (not (is_some m.value)) (counterparty_issue m)
counterparty_issues m (issue ∷ issues) = issue ∷ issues

-- `_validate_invoice`
unfoldable pub validate_invoice :
    InvoiceDirection → NormalizedInvoiceRow → Registers → List RowIssue
unfolding has_text positive_decimal resolve_invoice_counterparty
validate_invoice expected r registers =
    counterparty_issues (resolve_invoice_counterparty r registers) (invoice_field_issues expected r)

module _ (library : TextLibrary) where
  -- `_validate_transaction`
  unfoldable pub validate_transaction :
      MoneyChannel → NormalizedTransactionRow → Registers → List RowIssue
  unfolding has_text positive_decimal resolve_funding_account resolve_transaction_counterparty
  validate_transaction source r registers =
      let account = resolve_funding_account r registers in
      let counterparty = resolve_transaction_counterparty library r registers in
      issue_if (not (channel_eq r.channel source)) bad_channel
      ++ issue_if (not (is_known r.direction)) bad_direction
      ++ issue_if (not (is_aware r.occurred_at)) bad_datetime
      ++ issue_if (not (positive_decimal r.amount)) bad_amount
      ++ issue_if (not (has_text r.account_identifier) || not (is_some account.value))
          (account_issue account)
      ++ issue_if (not (is_some counterparty.value)) (counterparty_issue counterparty)

  abbrev pub validate_normalized : SourceKind → Normalized → Registers → List RowIssue
  validate_normalized input_invoice (invoice r) registers = validate_invoice input r registers
  validate_normalized output_invoice (invoice r) registers = validate_invoice output r registers
  validate_normalized SourceKind.bank (invoice r) registers = source_kind_mismatch ∷ []
  validate_normalized SourceKind.wechat (invoice r) registers = source_kind_mismatch ∷ []
  validate_normalized input_invoice (money r) registers = source_kind_mismatch ∷ []
  validate_normalized output_invoice (money r) registers = source_kind_mismatch ∷ []
  validate_normalized SourceKind.bank (money r) registers =
      validate_transaction MoneyChannel.bank r registers
  validate_normalized SourceKind.wechat (money r) registers =
      validate_transaction MoneyChannel.wechat r registers

  abbrev pub unless_reported : List RowIssue → List RowIssue
  unless_reported [] = not_normalized ∷ []
  unless_reported (issue ∷ issues) = issue ∷ issues

  abbrev pub validated : SourceKind → List RowIssue → Option Normalized → Registers → List RowIssue
  validated kind issues none registers = unless_reported issues
  validated kind issues (some normalized) registers =
      issues ++ validate_normalized kind normalized registers

  -- `validate_parsed_row`
  unfoldable pub validate_parsed_row : SourceKind → ParsedRow → Registers → List RowIssue
  unfolding validate_invoice validate_transaction
  validate_parsed_row kind row registers = validated kind row.issues row.normalized registers
