-- ===== src/Reporting/Open.antt =====
-- The open items of a day in apps/reporting/queries.py: `receivables_as_of`, `payables_as_of` and
-- `unmatched_funds_as_of`.
use finance_reconciliation.Prelude.{
  ℕ, Bool, ◌&&◌, Option, none, some, List, [], map, select, ltb, leb, lookup,
}
use finance_reconciliation.Prelude.Int.{ℤ}
use finance_reconciliation.Prelude.Text.{Text, codes}
use finance_reconciliation.Ledger.{
  MoneyTransaction, MoneyChannel, InvoiceDirection, input, output, invoice_direction_eq, is_normal,
}
use finance_reconciliation.Reporting.Amounts.{
  DatedInvoice, Records, cutoff, Annotated, invoice_with_open, payment_with_open, is_positive,
  Aging, aging_bucket, source_file_id,
}
use finance_reconciliation.Reporting.Suppliers.{party, name_of, sort_by, before_by}

pub record OpenInvoiceRow : Type 0 where
  pub invoice_id : ℕ
  pub counterparty_name : Text
  pub issue_date : ℕ
  pub due_date : Option ℕ
  pub open_amount : ℤ
  pub aging : Aging
  pub import_batch_id : ℕ
  pub source_file_id : Option ℕ

pub record OpenMoneyRow : Type 0 where
  pub transaction_id : ℕ
  pub occurred_at : ℕ
  pub counterparty_name : Text
  pub open_amount : ℤ
  pub channel : MoneyChannel
  pub masked_account : Text
  pub import_batch_id : ℕ
  pub source_file_id : Option ℕ

-- `invoice.due_date or invoice.issue_date`
abbrev pub base_date : DatedInvoice → ℕ
base_date i = elim i.due_date [ none ↦ i.invoice.issue_date | some day ↦ day ]

abbrev pub unknown_party : Text
unknown_party = codes "未识别单位"

module _ (records : Records) (as_of : ℕ) where
  abbrev pub counterparty_of : Option ℕ → Text
  counterparty_of none = unknown_party
  counterparty_of (some k) = name_of (party records k)

  -- The filter of `_open_invoice_rows` on the table.
  abbrev pub is_due : InvoiceDirection → DatedInvoice → Bool
  is_due direction i =
      invoice_direction_eq i.invoice.direction direction
      && leb i.invoice.issue_date as_of
      && is_normal i.invoice.status

  abbrev pub invoice_before : Annotated DatedInvoice → Annotated DatedInvoice → Bool
  invoice_before i j =
      before_by i.row.invoice.issue_date i.row.invoice.id j.row.invoice.issue_date j.row.invoice.id

  -- The query of `_open_invoice_rows`.
  unfoldable pub open_invoices : InvoiceDirection → List (Annotated DatedInvoice)
  unfolding invoice_with_open
  open_invoices direction = sort_by invoice_before (
      select (λ i. is_positive i.open_amount)
        (map (invoice_with_open records as_of) (select (is_due direction) records.invoices)))

  abbrev pub open_invoice_row : Annotated DatedInvoice → OpenInvoiceRow
  open_invoice_row i = record {
    invoice_id = i.row.invoice.id;
    counterparty_name = name_of (party records i.row.invoice.counterparty);
    issue_date = i.row.invoice.issue_date;
    due_date = i.row.due_date;
    open_amount = i.open_amount;
    aging = aging_bucket (base_date i.row) as_of;
    import_batch_id = i.row.invoice.import_batch;
    source_file_id = source_file_id records i.row.invoice.import_batch;
  }

  -- `_open_invoice_rows`
  unfoldable pub open_invoice_rows : InvoiceDirection → List OpenInvoiceRow
  unfolding open_invoices aging_bucket
  open_invoice_rows direction = map open_invoice_row (open_invoices direction)

  unfoldable pub receivables_as_of : List OpenInvoiceRow
  unfolding open_invoice_rows
  receivables_as_of = open_invoice_rows output

  unfoldable pub payables_as_of : List OpenInvoiceRow
  unfolding open_invoice_rows
  payables_as_of = open_invoice_rows input

  abbrev pub payment_before : Annotated MoneyTransaction → Annotated MoneyTransaction → Bool
  payment_before m n = before_by m.row.occurred_at m.row.id n.row.occurred_at n.row.id

  -- `_open_money`
  unfoldable pub open_money : List (Annotated MoneyTransaction)
  unfolding payment_with_open
  open_money = sort_by payment_before (
      select (λ m. is_positive m.open_amount)
        (map (payment_with_open records as_of)
          (select (λ m. ltb m.occurred_at (cutoff as_of)) records.transactions)))

  abbrev masked_of : Option Text → Text
  masked_of none = []
  masked_of (some masked) = masked

  abbrev open_money_row : Annotated MoneyTransaction → OpenMoneyRow
  open_money_row m = record {
    transaction_id = m.row.id;
    occurred_at = m.row.occurred_at;
    counterparty_name = counterparty_of m.row.counterparty;
    open_amount = m.open_amount;
    channel = m.row.channel;
    masked_account = masked_of (lookup m.row.account records.masked);
    import_batch_id = m.row.import_batch;
    source_file_id = source_file_id records m.row.import_batch;
  }

  unfoldable pub unmatched_funds_as_of : List OpenMoneyRow
  unfolding open_money
  unmatched_funds_as_of = map open_money_row open_money
