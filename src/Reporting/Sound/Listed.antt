-- ===== src/Reporting/Sound/Listed.antt =====
-- `exception_items` of apps/reporting/queries.py.
use finance_reconciliation.Prelude.{ℕ, ◌≡◌, true}
use finance_reconciliation.Reporting.Sorting.{All-sort_by}
use finance_reconciliation.Reporting.Amounts.{Records}
use finance_reconciliation.Reporting.Open.{open_money}
use finance_reconciliation.Reporting.Exceptions.{
  open_invoice_exceptions, money_exceptions, stale_exceptions,
}
use finance_reconciliation.Reporting.Differences.{partial_reconciliation_exceptions}
use finance_reconciliation.Reporting.Imported.{
  mapping_issue_exceptions, duplicate_exceptions, history_exceptions,
}
use finance_reconciliation.Reporting.Items.{
  red_allocation_exceptions, found_items, item_before, exception_items,
}
use finance_reconciliation.Reporting.Sound.{is_sound, Sound, Sound-++}
use finance_reconciliation.Reporting.Sound.Opened.{
  open_money-IsOpenMoney, open_invoice_exceptions-Sound, money_exceptions-Sound,
}
use finance_reconciliation.Reporting.Sound.Stale.{stale_exceptions-Sound}
use finance_reconciliation.Reporting.Sound.Imported.{
  partial_reconciliation_exceptions-Sound, mapping_issue_exceptions-Sound,
  duplicate_exceptions-Sound, red_allocation_exceptions-Sound, history_exceptions-Sound,
}

module _ (records : Records) (as_of : ℕ) where
  found_items-Sound : Sound as_of (found_items records as_of)
  found_items-Sound =
      let invoices = open_invoice_exceptions-Sound records as_of in
      let payments = open_money-IsOpenMoney records as_of in
      let first = open_invoice_exceptions records as_of in
      let open_payments = open_money records as_of in
      let with_money =
        Sound-++ as_of first (money_exceptions records as_of open_payments) invoices.0
          (money_exceptions-Sound records as_of open_payments payments) in
      let with_mapping =
        Sound-++ as_of _ (mapping_issue_exceptions records as_of) with_money
          (mapping_issue_exceptions-Sound records as_of) in
      let with_differences =
        Sound-++ as_of _ (partial_reconciliation_exceptions records as_of) with_mapping
          (partial_reconciliation_exceptions-Sound records as_of) in
      let with_duplicates =
        Sound-++ as_of _ (duplicate_exceptions records as_of) with_differences
          (duplicate_exceptions-Sound records as_of) in
      let with_red =
        Sound-++ as_of _ (red_allocation_exceptions records as_of) with_duplicates
          (red_allocation_exceptions-Sound records as_of) in
      let with_stale =
        Sound-++ as_of _ (stale_exceptions records as_of first open_payments) with_red
          (stale_exceptions-Sound records as_of first open_payments invoices.1 payments) in
      Sound-++ as_of _ (history_exceptions records as_of) with_stale
        (history_exceptions-Sound records as_of)

-- Every exception that is listed for a day is sound. One on an open invoice, an open payment, a
-- reconciliation or a red invoice has a positive amount and is of that day or an earlier one; one on
-- an item that has been open for long has a positive amount and is more than 90 days old; one on a
-- payment without a counterparty has both or, on a staged row, neither; one on a duplicate has no
-- amount and no later day; one on the history has no amount.
pub exception_items-Sound :
    (records : Records) (as_of : ℕ) → Sound as_of (exception_items records as_of)
unfolding exception_items
exception_items-Sound records as_of =
    All-sort_by (λ t. is_sound as_of t ≡ true) item_before (found_items records as_of)
      (found_items-Sound records as_of)
