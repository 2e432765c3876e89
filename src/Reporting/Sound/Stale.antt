-- ===== src/Reporting/Sound/Stale.antt =====
-- The exceptions of what has been open for long (`_stale_exceptions` of apps/reporting/queries.py).
use finance_reconciliation.Prelude.{
  ℕ, ◌+◌, ◌≡◌, Bool, true, false, ◌&&◌, Option, none, some, List, [], ◌∷◌, map, select, arith, ltb,
  ◌==◌, All, is_some, Bool-cases, inl, inr, if◌then◌else◌,
}
use finance_reconciliation.Ledger.{MoneyTransaction, local_date}
use finance_reconciliation.Reporting.Sorting.{All-map, All-++, All-step, All-select_both}
use finance_reconciliation.Reporting.Amounts.{DatedInvoice, Records, Annotated}
use finance_reconciliation.Reporting.Open.{base_date}
use finance_reconciliation.Reporting.Exceptions.{
  ExceptionItem, item_of, is_stale, is_open_kind, stale_invoice_items, stale_invoices,
  stale_money_item, stale_exceptions,
}
use finance_reconciliation.Reporting.Sound.{has_amount, Sound}
use finance_reconciliation.Reporting.Sound.Opened.{IsOpenMoney, OpenItem}

-- Of an item that was found.
abbrev Found : (ExceptionItem → Type 0) → Option ExceptionItem → Type 0
Found P none = Unit
Found P (some t) = P t

item_of-Found :
    (P : ExceptionItem → Type 0) (k : ℕ) (items : List ExceptionItem)
    → All P items
    → Found P (item_of k items)
item_of-Found P k [] h = tt
item_of-Found P k (t ∷ items) (h, hs) =
    go (item_of k items) (is_open_kind t.kind && t.reference_id == k) (item_of-Found P k items hs)
  where
    go :
        (rest : Option ExceptionItem) (taken : Bool)
        → Found P rest
        → Found P (if is_some rest then rest else if taken then some t else none)
    go none true r = h
    go none false r = tt
    go (some later) taken r = r

module _ (records : Records) (as_of : ℕ) where
  abbrev HasAmount : ExceptionItem → Type 0
  HasAmount t = has_amount t.amount ≡ true

  stale_invoice_items-Sound :
      (i : DatedInvoice) (found : Option ExceptionItem)
      → Found HasAmount found
      → Sound as_of (stale_invoice_items records as_of i found)
  stale_invoice_items-Sound i none h = tt
  stale_invoice_items-Sound i (some t) h = elim (Bool-cases (is_stale as_of (base_date i))) [
    | inl late ↦
        let over : ltb (base_date i + 90) as_of ≡ true = ground (arith, late) in
        rw late (ground (arith, h, over), tt)
    | inr early ↦ rw early tt
  ]

  stale_invoices-Sound :
      (items : List ExceptionItem) (invoices : List DatedInvoice)
      → All HasAmount items
      → Sound as_of (stale_invoices records as_of items invoices)
  unfolding stale_invoices
  stale_invoices-Sound items [] h = tt
  stale_invoices-Sound items (i ∷ invoices) h =
      All-++ _ (stale_invoice_items records as_of i (item_of i.invoice.id items)) _
        (stale_invoice_items-Sound i _ (item_of-Found HasAmount i.invoice.id items h))
        (stale_invoices-Sound items invoices h)

  stale_money-Sound :
      (payments : List (Annotated MoneyTransaction))
      → All (IsOpenMoney records as_of) payments
      → Sound as_of (
          map
            (stale_money_item records as_of)
            (select (λ m. is_stale as_of (local_date m.row.occurred_at)) payments))
  stale_money-Sound payments h =
      All-map _ _ (stale_money_item records as_of) _ (λ m found. ground (arith, found.0, found.1))
        (All-select_both (IsOpenMoney records as_of)
          (λ m. is_stale as_of (local_date m.row.occurred_at)) payments h)

  pub stale_exceptions-Sound :
      (items : List ExceptionItem) (payments : List (Annotated MoneyTransaction))
      → All (OpenItem records as_of) items
      → All (IsOpenMoney records as_of) payments
      → Sound as_of (stale_exceptions records as_of items payments)
  unfolding stale_exceptions
  stale_exceptions-Sound items payments shown open_payments =
      All-++ _ (stale_invoices records as_of items records.invoices) _
        (stale_invoices-Sound items records.invoices
          (All-step _ HasAmount items (λ t h. ground (arith, h)) shown))
        (stale_money-Sound payments open_payments)
