-- ===== src/Reporting/Totals.antt =====
-- The totals of the suppliers' summaries against the tables: `supplier_summary_totals` of
-- `supplier_summaries_as_of` in apps/reporting/queries.py.
use finance_reconciliation.Prelude.{
  ℕ, ◌+◌, ◌≡◌, refl, sym, ap, ◌∙◌, none, List, [], ◌∷◌, select, sum_where, arith, length, All,
}
use finance_reconciliation.Prelude.Int.{sub_ℕ, pos_part, neg_part, +ℤ_parts, eq_of_parts}
use finance_reconciliation.Prelude.Text.{Text, strip}
use finance_reconciliation.Reporting.Sorting.{sum_by, sum_by-sort_by, sum_by-select, sum_by-map}
use finance_reconciliation.Reporting.Amounts.{Records, invoice_with_open, payment_with_open}
use finance_reconciliation.Reporting.Suppliers.{
  Filter, sort_by, SupplierSummaryRow, supplier_summary_rows,
}
use finance_reconciliation.Reporting.SupplierAccounts.{
  TextOrder, is_supplier_invoice, is_supplier_payment, supplier_invoice_records,
  supplier_payment_records, supplier_summaries_as_of, supplier_summary_totals,
}
use finance_reconciliation.Reporting.Sums.{
  IsBalanced, invoice_amount, payment_amount, invoiced, paid, sub_ℕ_parts,
  supplier_summary_rows-invoiced, supplier_summary_rows-paid, supplier_summary_rows-IsBalanced,
}

supplier_summary_totals-sums :
    (rows : List SupplierSummaryRow)
    → ((supplier_summary_totals rows).invoiced_amount ≡ invoiced rows)
      × ((supplier_summary_totals rows).paid_amount ≡ paid rows)
      × ((supplier_summary_totals rows).supplier_count ≡ length rows)
unfolding supplier_summary_totals
supplier_summary_totals-sums [] = omega arith
supplier_summary_totals-sums (row ∷ rows) = omega (arith, supplier_summary_totals-sums rows)

supplier_summary_totals-balance :
    (rows : List SupplierSummaryRow)
    → All IsBalanced rows
    → (supplier_summary_totals rows).balance ≡ sub_ℕ (invoiced rows) (paid rows)
unfolding supplier_summary_totals
supplier_summary_totals-balance [] h = refl
supplier_summary_totals-balance (row ∷ rows) (h, hs) =
    let rest = supplier_summary_totals-balance rows hs in
    eq_of_parts _ _ (
      omega (
        arith,
        +ℤ_parts row.balance (supplier_summary_totals rows).balance,
        sub_ℕ_parts row.invoiced_amount row.paid_amount,
        sub_ℕ_parts (invoiced rows) (paid rows),
        sub_ℕ_parts (row.invoiced_amount + invoiced rows) (row.paid_amount + paid rows),
        ap pos_part h,
        ap neg_part h,
        ap pos_part rest,
        ap neg_part rest,
      ))

module _ (texts : TextOrder) (records : Records) (as_of : ℕ) (filter : Filter) where
  -- The records add up to what the tables hold of them.
  pub supplier_invoice_records-sum :
      sum_by invoice_amount (supplier_invoice_records texts records as_of filter)
      ≡ sum_where
          (is_supplier_invoice texts records as_of filter)
          (λ i. i.invoice.total_amount)
          records.invoices
  unfolding supplier_invoice_records invoice_with_open
  supplier_invoice_records-sum =
      let chosen = select (is_supplier_invoice texts records as_of filter) records.invoices in
      sum_by-map invoice_amount (invoice_with_open records as_of) (sort_by _ chosen)
      ∙ sum_by-sort_by (λ i. i.invoice.total_amount) _ chosen
      ∙ sum_by-select (λ i. i.invoice.total_amount) _ records.invoices

  pub supplier_payment_records-sum :
      sum_by payment_amount (supplier_payment_records texts records as_of filter)
      ≡ sum_where
          (is_supplier_payment texts records as_of filter)
          (λ m. m.amount)
          records.transactions
  unfolding supplier_payment_records payment_with_open
  supplier_payment_records-sum =
      let chosen = select (is_supplier_payment texts records as_of filter) records.transactions in
      sum_by-map payment_amount (payment_with_open records as_of) (sort_by _ chosen)
      ∙ sum_by-sort_by (λ m. m.amount) _ chosen
      ∙ sum_by-select (λ m. m.amount) _ records.transactions

abbrev pub searched : Text → Filter
searched search = record { search = strip search; counterparty = none }

-- The totals of the summaries of a day are those of the tables: the invoices of suppliers that the
-- query takes in, their payments, and the difference of the two as a signed number.
pub supplier_summaries_as_of-totals :
    (texts : TextOrder) (records : Records) (as_of : ℕ) (search : Text)
    → let totals = supplier_summary_totals (supplier_summaries_as_of texts records as_of search) in
      (totals.invoiced_amount
        ≡ sum_where
            (is_supplier_invoice texts records as_of (searched search))
            (λ i. i.invoice.total_amount)
            records.invoices)
      × (totals.paid_amount
          ≡ sum_where
              (is_supplier_payment texts records as_of (searched search))
              (λ m. m.amount)
              records.transactions)
      × (totals.balance ≡ sub_ℕ totals.invoiced_amount totals.paid_amount)
unfolding supplier_summaries_as_of
supplier_summaries_as_of-totals texts records as_of search =
    let filter = searched search in
    let invoices = supplier_invoice_records texts records as_of filter in
    let payments = supplier_payment_records texts records as_of filter in
    let rows = supplier_summary_rows records texts.text_before invoices payments in
    let sums = supplier_summary_totals-sums rows in
    (
      sums.0
          ∙ supplier_summary_rows-invoiced records texts.text_before invoices payments
          ∙ supplier_invoice_records-sum texts records as_of filter,
      sums.1
          ∙ supplier_summary_rows-paid records texts.text_before invoices payments
          ∙ supplier_payment_records-sum texts records as_of filter,
      supplier_summary_totals-balance rows
            (supplier_summary_rows-IsBalanced records texts.text_before invoices payments)
          ∙ ap (λ (n : ℕ). sub_ℕ n (paid rows)) (sym sums.0)
          ∙ ap (sub_ℕ (supplier_summary_totals rows).invoiced_amount) (sym sums.1),
    )
