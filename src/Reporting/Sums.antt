-- ===== src/Reporting/Sums.antt =====
-- Sums over the rows of the reports of apps/reporting/queries.py: sorting and filtering keep them, and
-- the summaries of the suppliers add up to the records.
use finance_reconciliation.Prelude.{
  ℕ, ◌+◌, ◌≡◌, refl, ap, ◌∙◌, Bool, true, false, List, [], ◌∷◌, arith, ◌==◌, All, if◌then◌else◌,
}
use finance_reconciliation.Prelude.Int.{
  pos, sub_ℕ, pos_part, neg_part, +ℤ_parts, -ℤ_parts, eq_of_parts,
}
use finance_reconciliation.Prelude.Text.{Text}
use finance_reconciliation.Ledger.{MoneyTransaction}
use finance_reconciliation.Reporting.Amounts.{DatedInvoice, Records, Annotated}
use finance_reconciliation.Reporting.Sorting.{sum_by, sum_by-sort_by, All-sort_by}
use finance_reconciliation.Reporting.Suppliers.{
  party, name_of, SupplierSummaryRow, empty_supplier_summary, add_invoice, add_payment,
  update_summary, or_zero, add_invoices, add_payments, supplier_summary_rows,
}

-- A summary's balance is what was invoiced less what was paid.
abbrev pub IsBalanced : SupplierSummaryRow → Type 0
IsBalanced s = s.balance ≡ sub_ℕ s.invoiced_amount s.paid_amount

abbrev pub invoice_amount : Annotated DatedInvoice → ℕ
invoice_amount i = i.row.invoice.total_amount

abbrev pub payment_amount : Annotated MoneyTransaction → ℕ
payment_amount m = m.row.amount

abbrev pub invoiced : List SupplierSummaryRow → ℕ
invoiced = sum_by (λ s. s.invoiced_amount)

abbrev pub paid : List SupplierSummaryRow → ℕ
paid = sum_by (λ s. s.paid_amount)

update_summary-invoiced :
    (k : ℕ) (name : Text) (i : Annotated DatedInvoice) (rows : List SupplierSummaryRow)
    → (invoiced (update_summary k name (add_invoice i) rows) ≡ invoiced rows + invoice_amount i)
      × (paid (update_summary k name (add_invoice i) rows) ≡ paid rows)
unfolding update_summary empty_supplier_summary
update_summary-invoiced k name i [] = omega arith
update_summary-invoiced k name i (s ∷ rows) = ground (arith, update_summary-invoiced k name i rows)

update_summary-paid :
    (k : ℕ) (name : Text) (m : Annotated MoneyTransaction) (rows : List SupplierSummaryRow)
    → (invoiced (update_summary k name (add_payment m) rows) ≡ invoiced rows)
      × (paid (update_summary k name (add_payment m) rows) ≡ paid rows + payment_amount m)
unfolding update_summary empty_supplier_summary
update_summary-paid k name m [] = omega arith
update_summary-paid k name m (s ∷ rows) = ground (arith, update_summary-paid k name m rows)

pub sub_ℕ_parts : (a b : ℕ) → pos_part (sub_ℕ a b) + b ≡ neg_part (sub_ℕ a b) + a
sub_ℕ_parts a b = ground arith

add_invoice-IsBalanced :
    (i : Annotated DatedInvoice) (s : SupplierSummaryRow)
    → IsBalanced s
    → IsBalanced (add_invoice i s)
add_invoice-IsBalanced i s h = eq_of_parts _ _ (
    omega (
      arith,
      +ℤ_parts s.balance (pos (invoice_amount i)),
      sub_ℕ_parts (s.invoiced_amount + invoice_amount i) s.paid_amount,
      sub_ℕ_parts s.invoiced_amount s.paid_amount,
      ap pos_part h,
      ap neg_part h,
    ))

add_payment-IsBalanced :
    (m : Annotated MoneyTransaction) (s : SupplierSummaryRow)
    → IsBalanced s
    → IsBalanced (add_payment m s)
add_payment-IsBalanced m s h = eq_of_parts _ _ (
    omega (
      arith,
      -ℤ_parts s.balance (pos (payment_amount m)),
      sub_ℕ_parts s.invoiced_amount (s.paid_amount + payment_amount m),
      sub_ℕ_parts s.invoiced_amount s.paid_amount,
      ap pos_part h,
      ap neg_part h,
    ))

update_summary-All :
    (P : SupplierSummaryRow → Type 0) (k : ℕ) (name : Text)
    (change : SupplierSummaryRow → SupplierSummaryRow) (rows : List SupplierSummaryRow)
    → P (empty_supplier_summary k name)
    → ((s : SupplierSummaryRow) → P s → P (change s))
    → All P rows
    → All P (update_summary k name change rows)
unfolding update_summary
update_summary-All P k name change [] start step h = (step _ start, tt)
update_summary-All P k name change (s ∷ rows) start step (here, h) =
    go (s.counterparty_id == k) (update_summary-All P k name change rows start step h)
  where
    go :
        (same : Bool)
        → All P (update_summary k name change rows)
        → All P (if same then change s ∷ rows else s ∷ update_summary k name change rows)
    go true rest = (step s here, h)
    go false rest = (here, rest)

module _ (records : Records) where
  add_invoices-sums :
      (invoices : List (Annotated DatedInvoice)) (rows : List SupplierSummaryRow)
      → (invoiced (add_invoices records invoices rows)
          ≡ invoiced rows + sum_by invoice_amount invoices)
        × (paid (add_invoices records invoices rows) ≡ paid rows)
  unfolding add_invoices
  add_invoices-sums [] rows = omega arith
  add_invoices-sums (i ∷ invoices) rows =
      let k = i.row.invoice.counterparty in
      let name = name_of (party records k) in
      omega (
        arith,
        update_summary-invoiced k name i rows,
        add_invoices-sums invoices (update_summary k name (add_invoice i) rows),
      )

  add_payments-sums :
      (payments : List (Annotated MoneyTransaction)) (rows : List SupplierSummaryRow)
      → (invoiced (add_payments records payments rows) ≡ invoiced rows)
        × (paid (add_payments records payments rows) ≡ paid rows + sum_by payment_amount payments)
  unfolding add_payments
  add_payments-sums [] rows = omega arith
  add_payments-sums (m ∷ payments) rows =
      let k = or_zero m.row.counterparty in
      let name = name_of (party records k) in
      omega (
        arith,
        update_summary-paid k name m rows,
        add_payments-sums payments (update_summary k name (add_payment m) rows),
      )

  add_invoices-IsBalanced :
      (invoices : List (Annotated DatedInvoice)) (rows : List SupplierSummaryRow)
      → All IsBalanced rows
      → All IsBalanced (add_invoices records invoices rows)
  unfolding add_invoices empty_supplier_summary
  add_invoices-IsBalanced [] rows h = h
  add_invoices-IsBalanced (i ∷ invoices) rows h =
      add_invoices-IsBalanced invoices _
        (update_summary-All IsBalanced _ _ (add_invoice i) rows refl (add_invoice-IsBalanced i) h)

  add_payments-IsBalanced :
      (payments : List (Annotated MoneyTransaction)) (rows : List SupplierSummaryRow)
      → All IsBalanced rows
      → All IsBalanced (add_payments records payments rows)
  unfolding add_payments empty_supplier_summary
  add_payments-IsBalanced [] rows h = h
  add_payments-IsBalanced (m ∷ payments) rows h =
      add_payments-IsBalanced payments _
        (update_summary-All IsBalanced _ _ (add_payment m) rows refl (add_payment-IsBalanced m) h)

  module _ (text_before : Text → Text → Bool) (invoices : List (Annotated DatedInvoice))
      (payments : List (Annotated MoneyTransaction)) where
    -- The summaries add up to the records, and each is balanced.
    pub supplier_summary_rows-invoiced :
        invoiced (supplier_summary_rows records text_before invoices payments)
        ≡ sum_by invoice_amount invoices
    unfolding supplier_summary_rows
    supplier_summary_rows-invoiced =
        sum_by-sort_by _ _ (add_payments records payments (add_invoices records invoices []))
        ∙ (add_payments-sums payments (add_invoices records invoices [])).0
        ∙ (add_invoices-sums invoices []).0
        ∙ omega arith

    pub supplier_summary_rows-paid :
        paid (supplier_summary_rows records text_before invoices payments)
        ≡ sum_by payment_amount payments
    unfolding supplier_summary_rows
    supplier_summary_rows-paid =
        sum_by-sort_by _ _ (add_payments records payments (add_invoices records invoices []))
        ∙ (add_payments-sums payments (add_invoices records invoices [])).1
        ∙ ap (λ (n : ℕ). n + sum_by payment_amount payments) (add_invoices-sums invoices []).1
        ∙ omega arith

    pub supplier_summary_rows-IsBalanced :
        All IsBalanced (supplier_summary_rows records text_before invoices payments)
    unfolding supplier_summary_rows
    supplier_summary_rows-IsBalanced =
        All-sort_by IsBalanced _ _
          (add_payments-IsBalanced payments _ (add_invoices-IsBalanced invoices [] tt))
