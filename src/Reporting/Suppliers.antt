-- ===== src/Reporting/Suppliers.antt =====
-- The accounts of the suppliers in apps/reporting/queries.py: `supplier_summaries_as_of`,
-- `supplier_summary_as_of`, `supplier_summary_totals` and `supplier_ledger_as_of`. `icontains` is what
-- the database makes of that test.
use finance_reconciliation.Prelude.{
  ℕ, ◌+◌, Bool, true, false, not, ◌&&◌, ◌||◌, Option, none, some, List, [], ◌∷◌, find, ltb, leb,
  ◌==◌, if◌then◌else◌,
}
use finance_reconciliation.Prelude.Int.{ℤ, pos, ◌+ℤ◌, ◌-ℤ◌}
use finance_reconciliation.Prelude.Text.{Text}
use finance_reconciliation.Ledger.{MoneyTransaction, MoneyChannel, local_date}
use finance_reconciliation.Reporting.Amounts.{DatedInvoice, Party, Records, Annotated}

abbrev pub party : Records → ℕ → Option Party
party records k = find (λ p. p.id == k) records.parties

abbrev pub name_of : Option Party → Text
name_of none = []
name_of (some p) = p.name

abbrev pub supplies : Option Party → Bool
supplies none = false
supplies (some p) = p.is_supplier

-- The two filters that a caller may ask for.
pub record Filter : Type 0 where
  pub search : Text
  pub counterparty : Option ℕ

abbrev pub is_asked : Option ℕ → ℕ → Bool
is_asked none k = true
is_asked (some j) k = k == j

-- `order_by` and `sorted`, by insertion: `before` says that a row may stand before another.
abbrev pub insert_by : {A : Type 0} → (A → A → Bool) → A → List A → List A
insert_by before x [] = x ∷ []
insert_by before x (y ∷ ys) =
    let rest = insert_by before x ys in if before x y then x ∷ y ∷ ys else y ∷ rest

abbrev pub sort_by : {A : Type 0} → (A → A → Bool) → List A → List A
sort_by before [] = []
sort_by before (x ∷ xs) = insert_by before x (sort_by before xs)

-- In order of two numbers, the first one first.
abbrev pub before_by : ℕ → ℕ → ℕ → ℕ → Bool
before_by a k b l = ltb a b || a == b && leb k l

-- `channel` of a row is `none` for an invoice, and its reference the number or what identifies it.
pub record SupplierLedgerRow : Type 0 where
  pub is_payment : Bool
  pub reference_id : ℕ
  pub occurred_on : ℕ
  pub reference : Text
  pub channel : Option MoneyChannel
  pub increase : ℕ
  pub decrease : ℕ
  pub running_balance : ℤ
  pub allocated_amount : ℕ
  pub open_amount : ℤ
  pub import_batch_id : ℕ
  pub source_file_id : Option ℕ
  pub can_reconcile : Bool

pub record SupplierSummaryRow : Type 0 where
  pub counterparty_id : ℕ
  pub counterparty_name : Text
  pub invoiced_amount : ℕ
  pub paid_amount : ℕ
  pub balance : ℤ
  pub invoice_open_amount : ℤ
  pub payment_open_amount : ℤ
  pub latest_activity_on : Option ℕ

pub record SupplierSummaryTotals : Type 0 where
  pub supplier_count : ℕ
  pub invoiced_amount : ℕ
  pub paid_amount : ℕ
  pub balance : ℤ

-- `_empty_supplier_summary`
unfoldable pub empty_supplier_summary : ℕ → Text → SupplierSummaryRow
empty_supplier_summary k name = record {
  counterparty_id = k;
  counterparty_name = name;
  invoiced_amount = 0;
  paid_amount = 0;
  balance = pos 0;
  invoice_open_amount = pos 0;
  payment_open_amount = pos 0;
  latest_activity_on = none;
}

-- `_latest_activity`
abbrev pub latest_activity : Option ℕ → ℕ → ℕ
latest_activity none candidate = candidate
latest_activity (some current) candidate = if ltb current candidate then candidate else current

abbrev pub add_invoice : Annotated DatedInvoice → SupplierSummaryRow → SupplierSummaryRow
add_invoice i s = record s {
  invoiced_amount = s.invoiced_amount + i.row.invoice.total_amount;
  balance = s.balance +ℤ pos i.row.invoice.total_amount;
  invoice_open_amount = s.invoice_open_amount +ℤ i.open_amount;
  latest_activity_on = some (latest_activity s.latest_activity_on i.row.invoice.issue_date);
}

abbrev pub add_payment : Annotated MoneyTransaction → SupplierSummaryRow → SupplierSummaryRow
add_payment m s = record s {
  paid_amount = s.paid_amount + m.row.amount;
  balance = s.balance -ℤ pos m.row.amount;
  payment_open_amount = s.payment_open_amount +ℤ m.open_amount;
  latest_activity_on = some (latest_activity s.latest_activity_on (local_date m.row.occurred_at));
}

-- `setdefault` on `rows_by_counterparty`, and an update of what it returns; the rows carry their keys.
unfoldable pub update_summary :
    ℕ
    → Text
    → (SupplierSummaryRow → SupplierSummaryRow)
    → List SupplierSummaryRow
    → List SupplierSummaryRow
update_summary k name change [] = change (empty_supplier_summary k name) ∷ []
update_summary k name change (s ∷ rows) =
    let rest = update_summary k name change rows in
    if s.counterparty_id == k then change s ∷ rows else s ∷ rest

abbrev pub or_zero : Option ℕ → ℕ
or_zero none = 0
or_zero (some k) = k

module _ (records : Records) where
  -- The first loop of `_supplier_summary_rows`.
  unfoldable pub add_invoices :
      List (Annotated DatedInvoice) → List SupplierSummaryRow → List SupplierSummaryRow
  unfolding update_summary
  add_invoices [] rows = rows
  add_invoices (i ∷ invoices) rows =
      let k = i.row.invoice.counterparty in
      add_invoices invoices (update_summary k (name_of (party records k)) (add_invoice i) rows)

  -- The second loop; a payment of a supplier has a counterparty.
  unfoldable pub add_payments :
      List (Annotated MoneyTransaction) → List SupplierSummaryRow → List SupplierSummaryRow
  unfolding update_summary
  add_payments [] rows = rows
  add_payments (m ∷ payments) rows =
      let k = or_zero m.row.counterparty in
      add_payments payments (update_summary k (name_of (party records k)) (add_payment m) rows)

  module _ (text_before : Text → Text → Bool) where
    -- `sorted(…, key=(counterparty_name, str(counterparty_id)))`
    abbrev pub summary_before : SupplierSummaryRow → SupplierSummaryRow → Bool
    summary_before a b =
        text_before a.counterparty_name b.counterparty_name
        && (not (text_before b.counterparty_name a.counterparty_name)
            || leb a.counterparty_id b.counterparty_id)

    -- `_supplier_summary_rows`
    unfoldable pub supplier_summary_rows :
        List (Annotated DatedInvoice) → List (Annotated MoneyTransaction) → List SupplierSummaryRow
    unfolding add_invoices add_payments
    supplier_summary_rows invoices payments =
        sort_by summary_before (add_payments payments (add_invoices invoices []))
