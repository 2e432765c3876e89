-- ===== src/Reporting/Items.antt =====
-- `_red_allocation_exceptions` and `exception_items` of apps/reporting/queries.py.
use finance_reconciliation.Prelude.{
  ℕ, ◌+◌, Bool, not, ◌&&◌, ◌||◌, Option, none, some, List, ◌++◌, map, select, ltb, leb, ◌==◌,
}
use finance_reconciliation.Prelude.Int.{pos}
use finance_reconciliation.Ledger.{is_normal}
use finance_reconciliation.Reporting.Amounts.{DatedInvoice, Records, Annotated, invoice_with_open}
use finance_reconciliation.Reporting.Suppliers.{party, name_of, sort_by, before_by}
use finance_reconciliation.Reporting.Open.{invoice_before, open_money}
use finance_reconciliation.Reporting.Exceptions.{
  ExceptionType, receivable_open, payable_open, inflow_unmatched, outflow_unmatched,
  counterparty_unknown, reconciliation_difference, duplicate_import, red_with_active_allocation,
  stale_open_item, history_incomplete, still_allocated, party_name, ExceptionItem,
  open_invoice_exceptions, money_exceptions, stale_exceptions,
}
use finance_reconciliation.Reporting.Differences.{partial_reconciliation_exceptions}
use finance_reconciliation.Reporting.Imported.{
  mapping_issue_exceptions, duplicate_exceptions, history_exceptions,
}

abbrev pub kind_index : ExceptionType → ℕ
kind_index receivable_open = 0
kind_index payable_open = 1
kind_index inflow_unmatched = 2
kind_index outflow_unmatched = 3
kind_index counterparty_unknown = 4
kind_index reconciliation_difference = 5
kind_index duplicate_import = 6
kind_index red_with_active_allocation = 7
kind_index stale_open_item = 8
kind_index history_incomplete = 9

-- `occurred_on or date.min`
abbrev or_min : Option ℕ → ℕ
or_min none = 0
or_min (some day) = day + 1

-- The key of the sort: `(type_order[type], occurred_on or date.min, str(reference_id))`.
abbrev pub item_before : ExceptionItem → ExceptionItem → Bool
item_before a b =
    ltb (kind_index a.kind) (kind_index b.kind)
    || kind_index a.kind == kind_index b.kind
      && before_by (or_min a.occurred_on) a.reference_id (or_min b.occurred_on) b.reference_id

module _ (records : Records) (as_of : ℕ) where
  abbrev pub red_item : Annotated DatedInvoice → ExceptionItem
  red_item i = record {
    kind = red_with_active_allocation;
    reference_id = i.row.invoice.id;
    occurred_on = some i.row.invoice.issue_date;
    counterparty_name = party_name (name_of (party records i.row.invoice.counterparty));
    amount = some (pos i.allocated_amount);
    detail = still_allocated i.row.invoice.status;
  }

  -- `_red_allocation_exceptions`; a status that is not normal is red or void.
  unfoldable pub red_allocation_exceptions : List ExceptionItem
  unfolding invoice_with_open
  red_allocation_exceptions = map red_item (
      sort_by (invoice_before records as_of) (
        select (λ i. ltb 0 i.allocated_amount)
          (map (invoice_with_open records as_of) (
            select (λ i. not (is_normal i.invoice.status) && leb i.invoice.issue_date as_of)
              records.invoices))))

  -- The items in the order in which they are found.
  abbrev pub found_items : List ExceptionItem
  found_items =
      let invoice_items = open_invoice_exceptions records as_of in
      let payments = open_money records as_of in
      invoice_items
      ++ money_exceptions records as_of payments
      ++ mapping_issue_exceptions records as_of
      ++ partial_reconciliation_exceptions records as_of
      ++ duplicate_exceptions records as_of
      ++ red_allocation_exceptions
      ++ stale_exceptions records as_of invoice_items payments
      ++ history_exceptions records as_of

  -- `exception_items`
  unfoldable pub exception_items : List ExceptionItem
  unfolding open_invoice_exceptions open_money money_exceptions mapping_issue_exceptions
      partial_reconciliation_exceptions duplicate_exceptions red_allocation_exceptions
      stale_exceptions history_exceptions
  exception_items = sort_by item_before found_items
