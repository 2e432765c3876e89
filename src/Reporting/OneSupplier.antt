-- ===== src/Reporting/OneSupplier.antt =====
-- The summaries of the invoices and payments of one counterparty (`_supplier_summary_rows` of
-- apps/reporting/queries.py).
use finance_reconciliation.Prelude.{
  ℕ, ◌+◌, ◌≡◌, refl, sym, ap, ◌∙◌, Bool, true, List, [], ◌∷◌, arith, ◌==◌, ==_iff, All, subst,
}
use finance_reconciliation.Prelude.Int.{pos, sub_ℕ}
use finance_reconciliation.Prelude.Text.{Text}
use finance_reconciliation.Ledger.{MoneyTransaction}
use finance_reconciliation.Reporting.Amounts.{DatedInvoice, Records, Annotated}
use finance_reconciliation.Reporting.Suppliers.{
  party, name_of, sort_by, SupplierSummaryRow, empty_supplier_summary, add_invoice, add_payment,
  update_summary, or_zero, add_invoices, add_payments,
}
use finance_reconciliation.Reporting.SupplierAccounts.{first_or}
use finance_reconciliation.Reporting.Sums.{IsBalanced, invoiced, paid}

-- All summaries are of one counterparty, so that there is one at most.
abbrev pub IsSingle : ℕ → List SupplierSummaryRow → Type 0
IsSingle k [] = Unit
IsSingle k (s ∷ []) = s.counterparty_id ≡ k
IsSingle k (s ∷ t ∷ rows) = ⊥

update_summary-IsSingle :
    (k : ℕ) (name : Text) (change : SupplierSummaryRow → SupplierSummaryRow)
    (rows : List SupplierSummaryRow)
    → ((s : SupplierSummaryRow) → (change s).counterparty_id ≡ s.counterparty_id)
    → IsSingle k rows
    → IsSingle k (update_summary k name change rows)
unfolding update_summary empty_supplier_summary
update_summary-IsSingle k name change [] keeps h = keeps _
update_summary-IsSingle k name change (s ∷ []) keeps h =
    let same : (s.counterparty_id == k) ≡ true = (==_iff s.counterparty_id k).1 h in
    rw same (keeps s ∙ h)
update_summary-IsSingle k name change (s ∷ t ∷ rows) keeps h = absurd h

pub add_invoices-IsSingle :
    (records : Records) (k : ℕ) (invoices : List (Annotated DatedInvoice))
    (rows : List SupplierSummaryRow)
    → All (λ i. i.row.invoice.counterparty ≡ k) invoices
    → IsSingle k rows
    → IsSingle k (add_invoices records invoices rows)
unfolding add_invoices
add_invoices-IsSingle records k [] rows all h = h
add_invoices-IsSingle records k (i ∷ invoices) rows (one, all) h =
    add_invoices-IsSingle records k invoices _ all (
      subst
        (λ (j : ℕ). IsSingle k (update_summary j (name_of (party records j)) (add_invoice i) rows))
        (sym one) (update_summary-IsSingle k _ (add_invoice i) rows (λ s. refl) h))

pub add_payments-IsSingle :
    (records : Records) (k : ℕ) (payments : List (Annotated MoneyTransaction))
    (rows : List SupplierSummaryRow)
    → All (λ m. or_zero m.row.counterparty ≡ k) payments
    → IsSingle k rows
    → IsSingle k (add_payments records payments rows)
unfolding add_payments
add_payments-IsSingle records k [] rows all h = h
add_payments-IsSingle records k (m ∷ payments) rows (one, all) h =
    add_payments-IsSingle records k payments _ all (
      subst
        (λ (j : ℕ). IsSingle k (update_summary j (name_of (party records j)) (add_payment m) rows))
        (sym one) (update_summary-IsSingle k _ (add_payment m) rows (λ s. refl) h))

-- Of the one summary, or of none.
pub first_or-balance :
    (k : ℕ) (default : SupplierSummaryRow) (before : SupplierSummaryRow → SupplierSummaryRow → Bool)
    (rows : List SupplierSummaryRow)
    → default.balance ≡ pos 0
    → IsSingle k rows
    → All IsBalanced (sort_by before rows)
    → (first_or default (sort_by before rows)).balance
      ≡ sub_ℕ (invoiced (sort_by before rows)) (paid (sort_by before rows))
first_or-balance k default before [] zero_start h b = zero_start
first_or-balance k default before (s ∷ []) zero_start h b =
    let in_all : s.invoiced_amount ≡ s.invoiced_amount + 0 = omega arith in
    let out_all : s.paid_amount ≡ s.paid_amount + 0 = omega arith in
    b.0 ∙ ap (λ (n : ℕ). sub_ℕ n s.paid_amount) in_all ∙ ap (sub_ℕ (s.invoiced_amount + 0)) out_all
first_or-balance k default before (s ∷ t ∷ rows) zero_start h b = absurd h
