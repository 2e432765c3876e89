-- ===== src/Reporting/Sound/Opened.antt =====
-- The exceptions of open invoices and payments (`_open_invoice_exceptions` and `_money_exceptions` of
-- apps/reporting/queries.py).
use finance_reconciliation.Prelude.{
  ℕ, ◌≡◌, refl, sym, ◌∙◌, true, Option, none, some, List, [], ◌∷◌, map, arith, ltb, leb, All,
}
use finance_reconciliation.Prelude.Int.{ℤ}
use finance_reconciliation.Ledger.{
  MoneyTransaction, MoneyDirection, inflow, outflow, InvoiceDirection, input, output, local_date,
}
use finance_reconciliation.Reporting.Sorting.{
  All-sort_by, All-select, All-map, All-++, All-select_both,
}
use finance_reconciliation.Reporting.Amounts.{
  DatedInvoice, Records, cutoff, Annotated, invoice_with_open, payment_with_open, is_positive,
}
use finance_reconciliation.Reporting.Present.{cutoff-local_date}
use finance_reconciliation.Reporting.Open.{
  is_due, open_invoices, open_invoice_row, open_invoice_rows, receivables_as_of, payables_as_of,
  open_money,
}
use finance_reconciliation.Reporting.Exceptions.{
  ExceptionType, receivable_open, payable_open, ExceptionItem, unmatched_kind, open_item,
  open_invoice_exceptions, unmapped_items, money_exceptions,
}
use finance_reconciliation.Reporting.Sound.{is_open_at, allows, is_sound, Sound}

module _ (records : Records) (as_of : ℕ) where
  -- An open invoice of the day.
  abbrev pub IsOpenInvoice : Annotated DatedInvoice → Type 0
  IsOpenInvoice i = (leb i.row.invoice.issue_date as_of ≡ true) × (is_positive i.open_amount ≡ true)

  pub open_invoices-IsOpenInvoice :
      (direction : InvoiceDirection) → All IsOpenInvoice (open_invoices records as_of direction)
  unfolding open_invoices invoice_with_open
  open_invoices-IsOpenInvoice direction = All-sort_by IsOpenInvoice _ _ (
      All-select_both (λ (i : Annotated DatedInvoice). leb i.row.invoice.issue_date as_of ≡ true)
        (λ i. is_positive i.open_amount) _
        (All-map (λ (i : DatedInvoice). is_due records as_of direction i ≡ true) _
          (invoice_with_open records as_of) _ (λ i h. ground (arith, h))
          (All-select (is_due records as_of direction) records.invoices)))

  abbrev pub IsOpenMoney : Annotated MoneyTransaction → Type 0
  IsOpenMoney m =
      (leb (local_date m.row.occurred_at) as_of ≡ true) × (is_positive m.open_amount ≡ true)

  pub open_money-IsOpenMoney : All IsOpenMoney (open_money records as_of)
  unfolding open_money payment_with_open
  open_money-IsOpenMoney = All-sort_by IsOpenMoney _ _ (
      All-select_both
        (λ (m : Annotated MoneyTransaction). leb (local_date m.row.occurred_at) as_of ≡ true)
        (λ m. is_positive m.open_amount) _
        (All-map (λ (m : MoneyTransaction). ltb m.occurred_at (cutoff as_of) ≡ true) _
          (payment_with_open records as_of) _
          (λ m h. sym (cutoff-local_date m.occurred_at as_of) ∙ h)
          (All-select (λ (m : MoneyTransaction). ltb m.occurred_at (cutoff as_of))
            records.transactions)))

  abbrev pub OpenItem : ExceptionItem → Type 0
  OpenItem t = is_open_at as_of t.amount t.occurred_on ≡ true

  open_items :
      (kind : ExceptionType) (rows : List (Annotated DatedInvoice))
      → ((t : ExceptionItem) → t.kind ≡ kind → OpenItem t → is_sound as_of t ≡ true)
      → All IsOpenInvoice rows
      → Sound as_of (map (open_item records as_of kind) (map (open_invoice_row records as_of) rows))
        × All OpenItem
            (map (open_item records as_of kind) (map (open_invoice_row records as_of) rows))
  open_items kind [] step h = (tt, tt)
  open_items kind (i ∷ rows) step (h, hs) =
      let rest = open_items kind rows step hs in
      let item = open_item records as_of kind (open_invoice_row records as_of i) in
      let shown : OpenItem item = ground (arith, h) in
      ((step item refl shown, rest.0), (shown, rest.1))

  pub open_invoice_exceptions-Sound :
      Sound as_of (open_invoice_exceptions records as_of)
      × All OpenItem (open_invoice_exceptions records as_of)
  unfolding open_invoice_exceptions receivables_as_of payables_as_of open_invoice_rows
  open_invoice_exceptions-Sound =
      let incoming =
        open_items receivable_open (open_invoices records as_of output) (λ t e h. rw e h)
          (open_invoices-IsOpenInvoice output) in
      let outgoing =
        open_items payable_open (open_invoices records as_of input) (λ t e h. rw e h)
          (open_invoices-IsOpenInvoice input) in
      (All-++ _ _ _ incoming.0 outgoing.0, All-++ _ _ _ incoming.1 outgoing.1)

  unmatched_kind-allows :
      (d : MoneyDirection) (amount : Option ℤ) (day : Option ℕ)
      → allows as_of (unmatched_kind d) amount day ≡ is_open_at as_of amount day
  unmatched_kind-allows inflow amount day = refl
  unmatched_kind-allows outflow amount day = refl

  unmapped_items-Sound :
      (k : Option ℕ) (m : Annotated MoneyTransaction)
      → IsOpenMoney m
      → Sound as_of (unmapped_items records as_of k m)
  unmapped_items-Sound (some k) m h = tt
  unmapped_items-Sound none m h = (ground (arith, h), tt)

  pub money_exceptions-Sound :
      (payments : List (Annotated MoneyTransaction))
      → All IsOpenMoney payments
      → Sound as_of (money_exceptions records as_of payments)
  unfolding money_exceptions
  money_exceptions-Sound [] h = tt
  money_exceptions-Sound (m ∷ payments) (h, hs) =
      let shown : is_open_at as_of (some m.open_amount) (some (local_date m.row.occurred_at))
          ≡ true =
        ground (arith, h) in
      (
        unmatched_kind-allows m.row.direction _ _ ∙ shown,
        All-++ _ (unmapped_items records as_of m.row.counterparty m) _
            (unmapped_items-Sound m.row.counterparty m h) (money_exceptions-Sound payments hs),
      )
