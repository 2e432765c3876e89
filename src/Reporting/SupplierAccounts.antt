-- ===== src/Reporting/SupplierAccounts.antt =====
-- The queries of apps/reporting/queries.py on the suppliers as of a day, over the rows of Suppliers.antt:
-- `supplier_summaries_as_of`, `supplier_summary_as_of`, `supplier_summary_totals` and
-- `supplier_ledger_as_of`.
use finance_reconciliation.Prelude.{
  ℕ, ◌+◌, Bool, true, false, ◌&&◌, ◌||◌, Option, none, some, List, [], ◌∷◌, ◌++◌, map, select, any,
  ltb, leb, ◌==◌, if◌then◌else◌,
}
use finance_reconciliation.Prelude.Int.{ℤ, pos, sub_ℕ, ◌+ℤ◌}
use finance_reconciliation.Prelude.Text.{Text, is_empty, strip}
use finance_reconciliation.Ledger.{
  MoneyTransaction, input, outflow, invoice_direction_eq, money_direction_eq, is_normal, local_date,
}
use finance_reconciliation.Reporting.Amounts.{
  DatedInvoice, Party, Records, cutoff, Annotated, invoice_with_open, payment_with_open,
  current_open_amount, is_positive, source_file_id,
}
use finance_reconciliation.Reporting.Suppliers.{
  party, name_of, supplies, Filter, is_asked, sort_by, before_by, SupplierLedgerRow,
  SupplierSummaryRow, SupplierSummaryTotals, empty_supplier_summary, supplier_summary_rows,
}

-- What `str(uuid)` sorts by is the number; `text_before` is `<=` of two texts.
pub record TextOrder : Type 0 where
  pub text_before : Text → Text → Bool
  pub icontains : Text → Text → Bool

-- `rows[0]`, if there is one.
abbrev pub first_or : SupplierSummaryRow → List SupplierSummaryRow → SupplierSummaryRow
first_or default [] = default
first_or default (row ∷ rows) = row

abbrev pub of_party : ℕ → Filter
of_party k = record { search = []; counterparty = some k }

module _ (texts : TextOrder) (records : Records) (as_of : ℕ) where
  abbrev pub is_wanted : Filter → ℕ → Bool
  is_wanted filter k =
      (is_empty filter.search || texts.icontains (name_of (party records k)) filter.search)
      && is_asked filter.counterparty k

  -- `status_changes_after_cutoff`
  abbrev pub changed_later : ℕ → Bool
  changed_later k =
      any (λ c. c.invoice == k && leb (cutoff as_of) c.created_at) records.status_changes

  abbrev pub is_supplier_invoice : Filter → DatedInvoice → Bool
  is_supplier_invoice filter i =
      invoice_direction_eq i.invoice.direction input
      && leb i.invoice.issue_date as_of
      && supplies (party records i.invoice.counterparty)
      && (is_normal i.invoice.status || changed_later i.invoice.id)
      && is_wanted filter i.invoice.counterparty

  -- `_supplier_invoice_records`
  unfoldable pub supplier_invoice_records : Filter → List (Annotated DatedInvoice)
  unfolding invoice_with_open
  supplier_invoice_records filter = map (invoice_with_open records as_of) (
      sort_by (λ i j. before_by i.invoice.issue_date i.invoice.id j.invoice.issue_date j.invoice.id)
        (select (is_supplier_invoice filter) records.invoices))

  abbrev pub is_of_supplier : Option ℕ → Filter → Bool
  is_of_supplier none filter = false
  is_of_supplier (some k) filter = supplies (party records k) && is_wanted filter k

  abbrev pub is_supplier_payment : Filter → MoneyTransaction → Bool
  is_supplier_payment filter m =
      money_direction_eq m.direction outflow
      && ltb m.occurred_at (cutoff as_of)
      && is_of_supplier m.counterparty filter

  -- `_supplier_payment_records`
  unfoldable pub supplier_payment_records : Filter → List (Annotated MoneyTransaction)
  unfolding payment_with_open
  supplier_payment_records filter = map (payment_with_open records as_of) (
      sort_by (λ m n. before_by m.occurred_at m.id n.occurred_at n.id)
        (select (is_supplier_payment filter) records.transactions))

  -- `_supplier_summary_rows` of the records that pass a filter.
  abbrev pub summaries_for : Filter → List SupplierSummaryRow
  summaries_for filter =
      supplier_summary_rows records texts.text_before (supplier_invoice_records filter)
        (supplier_payment_records filter)

  -- `supplier_summaries_as_of`
  unfoldable pub supplier_summaries_as_of : Text → List SupplierSummaryRow
  unfolding supplier_summary_rows supplier_invoice_records supplier_payment_records
  supplier_summaries_as_of search =
      summaries_for (record { search = strip search; counterparty = none })

  abbrev pub summary_for : ℕ → Option Party → Option SupplierSummaryRow
  summary_for k none = none
  summary_for k (some p) =
      if p.is_supplier
      then some (first_or (empty_supplier_summary p.id p.name) (summaries_for (of_party k)))
      else none

  -- `supplier_summary_as_of`; `none` where it raises `DoesNotExist`.
  unfoldable pub supplier_summary_as_of : ℕ → Option SupplierSummaryRow
  unfolding supplier_summary_rows supplier_invoice_records supplier_payment_records
      empty_supplier_summary
  supplier_summary_as_of k = summary_for k (party records k)

  abbrev pub invoice_line : Annotated DatedInvoice → SupplierLedgerRow
  invoice_line i = record {
    is_payment = false;
    reference_id = i.row.invoice.id;
    occurred_on = i.row.invoice.issue_date;
    reference = i.row.invoice.invoice_number;
    channel = none;
    increase = i.row.invoice.total_amount;
    decrease = 0;
    running_balance = pos 0;
    allocated_amount = i.allocated_amount;
    open_amount = i.open_amount;
    import_batch_id = i.row.invoice.import_batch;
    source_file_id = source_file_id records i.row.invoice.import_batch;
    can_reconcile =
        is_normal i.row.invoice.status && is_positive (current_open_amount records i.row);
  }

  abbrev pub payment_line : Annotated MoneyTransaction → SupplierLedgerRow
  payment_line m = record {
    is_payment = true;
    reference_id = m.row.id;
    occurred_on = local_date m.row.occurred_at;
    reference = if is_empty m.row.transaction_id then m.row.fingerprint else m.row.transaction_id;
    channel = some m.row.channel;
    increase = 0;
    decrease = m.row.amount;
    running_balance = pos 0;
    allocated_amount = m.allocated_amount;
    open_amount = m.open_amount;
    import_batch_id = m.row.import_batch;
    source_file_id = source_file_id records m.row.import_batch;
    can_reconcile = false;
  }

  abbrev kind_order : Bool → ℕ
  kind_order false = 0
  kind_order true = 1

  -- `rows.sort(key=(occurred_on, kind, str(reference_id)))`
  abbrev pub line_before : SupplierLedgerRow → SupplierLedgerRow → Bool
  line_before a b =
      ltb a.occurred_on b.occurred_on
      || a.occurred_on == b.occurred_on
        && before_by (kind_order a.is_payment) a.reference_id (kind_order b.is_payment)
            b.reference_id

  -- The last loop of `supplier_ledger_as_of`.
  unfoldable pub run_balance : ℤ → List SupplierLedgerRow → List SupplierLedgerRow
  run_balance running [] = []
  run_balance running (row ∷ rows) =
      let balance = running +ℤ sub_ℕ row.increase row.decrease in
      record row { running_balance = balance } ∷ run_balance balance rows

  -- The rows before they are balanced.
  abbrev pub lines_of : ℕ → List SupplierLedgerRow
  lines_of k =
      map invoice_line (supplier_invoice_records (of_party k))
      ++ map payment_line (supplier_payment_records (of_party k))

  -- `supplier_ledger_as_of`
  unfoldable pub supplier_ledger_as_of : ℕ → List SupplierLedgerRow
  unfolding run_balance supplier_invoice_records supplier_payment_records current_open_amount
  supplier_ledger_as_of k = run_balance (pos 0) (sort_by line_before (lines_of k))

-- `supplier_summary_totals`
unfoldable pub supplier_summary_totals : List SupplierSummaryRow → SupplierSummaryTotals
supplier_summary_totals [] = record {
  supplier_count = 0;
  invoiced_amount = 0;
  paid_amount = 0;
  balance = pos 0;
}
supplier_summary_totals (row ∷ rows) =
    let rest = supplier_summary_totals rows in
    record {
      supplier_count = rest.supplier_count + 1;
      invoiced_amount = row.invoiced_amount + rest.invoiced_amount;
      paid_amount = row.paid_amount + rest.paid_amount;
      balance = row.balance +ℤ rest.balance;
    }
