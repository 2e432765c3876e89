-- ===== src/Reporting/Running.antt =====
-- The account of one supplier: `supplier_ledger_as_of` against `supplier_summary_as_of` of
-- apps/reporting/queries.py.
use finance_reconciliation.Prelude.{
  ℕ, ◌+◌, ◌≡◌, refl, sym, ap, ◌∙◌, inl, inr, true, Option, none, some, List, [], ◌∷◌, map, arith,
  All, Bool-cases,
}
use finance_reconciliation.Prelude.Int.{ℤ, pos, sub_ℕ, ◌+ℤ◌, +ℤ_parts, eq_of_parts}
use finance_reconciliation.Ledger.{MoneyTransaction}
use finance_reconciliation.Reporting.Sorting.{
  sum_by, sum_by-append, sum_by-sort_by, sum_by-map, All-sort_by, All-select, All-map,
}
use finance_reconciliation.Reporting.Amounts.{
  DatedInvoice, Party, Records, invoice_with_open, payment_with_open,
}
use finance_reconciliation.Reporting.Suppliers.{
  party, sort_by, SupplierLedgerRow, SupplierSummaryRow, empty_supplier_summary, or_zero,
  supplier_summary_rows,
}
use finance_reconciliation.Reporting.SupplierAccounts.{
  TextOrder, is_of_supplier, is_supplier_invoice, is_supplier_payment, supplier_invoice_records,
  supplier_payment_records, summaries_for, summary_for, first_or, of_party, supplier_summary_as_of,
  invoice_line, payment_line, line_before, run_balance, lines_of, supplier_ledger_as_of,
}
use finance_reconciliation.Reporting.OneSupplier.{
  add_invoices-IsSingle, add_payments-IsSingle, first_or-balance,
}
use finance_reconciliation.Reporting.Sums.{
  invoice_amount, payment_amount, sub_ℕ_parts, supplier_summary_rows-invoiced,
  supplier_summary_rows-paid, supplier_summary_rows-IsBalanced,
}

-- The balance that a ledger ends with, from one that it starts with.
abbrev pub last_balance : ℤ → List SupplierLedgerRow → ℤ
last_balance balance [] = balance
last_balance balance (row ∷ rows) = last_balance row.running_balance rows

abbrev increases : List SupplierLedgerRow → ℕ
increases = sum_by (λ r. r.increase)

abbrev decreases : List SupplierLedgerRow → ℕ
decreases = sum_by (λ r. r.decrease)

module _ (texts : TextOrder) (records : Records) (as_of : ℕ) where
  last_balance-run_balance :
      (start : ℤ) (rows : List SupplierLedgerRow)
      → last_balance start (run_balance texts records as_of start rows)
        ≡ start +ℤ sub_ℕ (increases rows) (decreases rows)
  unfolding run_balance
  last_balance-run_balance start [] = eq_of_parts _ _ (omega (arith, +ℤ_parts start (pos 0)))
  last_balance-run_balance start (row ∷ rows) =
      let step = sub_ℕ row.increase row.decrease in
      let next = start +ℤ step in
      let rest = sub_ℕ (increases rows) (decreases rows) in
      let all = sub_ℕ (increases (row ∷ rows)) (decreases (row ∷ rows)) in
      last_balance-run_balance next rows
      ∙ eq_of_parts (next +ℤ rest) (start +ℤ all) (
          omega (
            arith,
            +ℤ_parts next rest,
            +ℤ_parts start step,
            +ℤ_parts start all,
            sub_ℕ_parts row.increase row.decrease,
            sub_ℕ_parts (increases rows) (decreases rows),
            sub_ℕ_parts (row.increase + increases rows) (row.decrease + decreases rows),
          ))

some-injective : {A : Type 0} {a b : A} → some a ≡ some b → a ≡ b
some-injective h = cc

sub_ℕ-equal : {a b c d : ℕ} → a ≡ b → c ≡ d → sub_ℕ a c ≡ sub_ℕ b d
sub_ℕ-equal e f = cc

sum_by-none : {A : Type 0} (xs : List A) → sum_by (λ (x : A). 0) xs ≡ 0
sum_by-none [] = refl
sum_by-none (x ∷ xs) = omega (arith, sum_by-none xs)

module _ (texts : TextOrder) (records : Records) (as_of k : ℕ) where
  invoices-of_party :
      All
        (λ i. i.row.invoice.counterparty ≡ k)
        (supplier_invoice_records texts records as_of (of_party k))
  unfolding supplier_invoice_records invoice_with_open
  invoices-of_party =
      All-map (λ (i : DatedInvoice). is_supplier_invoice texts records as_of (of_party k) i ≡ true)
        _ (invoice_with_open records as_of) _ (λ i h. ground (arith, h))
        (All-sort_by _ _ _
          (All-select (is_supplier_invoice texts records as_of (of_party k)) records.invoices))

  payment-of_party :
      (m : MoneyTransaction)
      → is_supplier_payment texts records as_of (of_party k) m ≡ true
      → or_zero m.counterparty ≡ k
  payment-of_party m h = go m.counterparty (ground (arith, h))
    where
      go : (c : Option ℕ) → is_of_supplier texts records as_of c (of_party k) ≡ true → or_zero c ≡ k
      go none e = cc
      go (some j) e = ground (arith, e)

  payments-of_party :
      All
        (λ m. or_zero m.row.counterparty ≡ k)
        (supplier_payment_records texts records as_of (of_party k))
  unfolding supplier_payment_records payment_with_open
  payments-of_party =
      All-map
        (λ (m : MoneyTransaction). is_supplier_payment texts records as_of (of_party k) m ≡ true) _
        (payment_with_open records as_of) _ payment-of_party
        (All-sort_by _ _ _
          (All-select (is_supplier_payment texts records as_of (of_party k)) records.transactions))

  lines-sums :
      (increases (lines_of texts records as_of k)
        ≡ sum_by invoice_amount (supplier_invoice_records texts records as_of (of_party k)))
      × (decreases (lines_of texts records as_of k)
          ≡ sum_by payment_amount (supplier_payment_records texts records as_of (of_party k)))
  lines-sums =
      let invoices = supplier_invoice_records texts records as_of (of_party k) in
      let payments = supplier_payment_records texts records as_of (of_party k) in
      let bills = map (invoice_line texts records as_of) invoices in
      let pays = map (payment_line texts records as_of) payments in
      (
        omega (
          arith,
          sum_by-append (λ (r : SupplierLedgerRow). r.increase) bills pays,
          sum_by-map (λ (r : SupplierLedgerRow). r.increase) (invoice_line texts records as_of)
              invoices,
          sum_by-map (λ (r : SupplierLedgerRow). r.increase) (payment_line texts records as_of)
              payments,
          sum_by-none payments,
        ),
        omega (
          arith,
          sum_by-append (λ (r : SupplierLedgerRow). r.decrease) bills pays,
          sum_by-map (λ (r : SupplierLedgerRow). r.decrease) (invoice_line texts records as_of)
              invoices,
          sum_by-map (λ (r : SupplierLedgerRow). r.decrease) (payment_line texts records as_of)
              payments,
          sum_by-none invoices,
        ),
      )

  summaries-balance :
      (default : SupplierSummaryRow)
      → default.balance ≡ pos 0
      → (first_or default (summaries_for texts records as_of (of_party k))).balance
        ≡ sub_ℕ
            (increases (lines_of texts records as_of k))
            (decreases (lines_of texts records as_of k))
  unfolding supplier_summary_rows
  summaries-balance default zero_start =
      let invoices = supplier_invoice_records texts records as_of (of_party k) in
      let payments = supplier_payment_records texts records as_of (of_party k) in
      let single =
        add_payments-IsSingle records k payments _ payments-of_party
          (add_invoices-IsSingle records k invoices [] invoices-of_party tt) in
      first_or-balance k default _ _ zero_start single
        (supplier_summary_rows-IsBalanced records texts.text_before invoices payments)
      ∙ sub_ℕ-equal
          (supplier_summary_rows-invoiced records texts.text_before invoices payments
            ∙ sym lines-sums.0)
          (supplier_summary_rows-paid records texts.text_before invoices payments
            ∙ sym lines-sums.1)

  -- The ledger of a supplier as of a day ends with the balance that the summary of the supplier shows.
  pub supplier_ledger_as_of-balance :
      (s : SupplierSummaryRow)
      → supplier_summary_as_of texts records as_of k ≡ some s
      → last_balance (pos 0) (supplier_ledger_as_of texts records as_of k) ≡ s.balance
  unfolding supplier_ledger_as_of supplier_summary_as_of empty_supplier_summary
  supplier_ledger_as_of-balance s h = go (party records k) h
    where
      rows : List SupplierLedgerRow
      rows = lines_of texts records as_of k

      total : ℤ
      total = sub_ℕ (increases rows) (decreases rows)

      ends : last_balance (pos 0) (supplier_ledger_as_of texts records as_of k) ≡ total
      ends =
          last_balance-run_balance texts records as_of (pos 0)
            (sort_by (line_before texts records as_of) rows)
          ∙ ap (λ (z : ℤ). pos 0 +ℤ z)
              (sub_ℕ-equal (sum_by-sort_by (λ r. r.increase) _ rows)
                (sum_by-sort_by (λ r. r.decrease) _ rows))
          ∙ eq_of_parts (pos 0 +ℤ total) total (omega (arith, +ℤ_parts (pos 0) total))

      go :
          (p : Option Party)
          → summary_for texts records as_of k p ≡ some s
          → last_balance (pos 0) (supplier_ledger_as_of texts records as_of k) ≡ s.balance
      go none e = cc
      go (some p) e = elim (Bool-cases p.is_supplier) [
        | inl yes_supplier ↦
            let found = rw yes_supplier at e in
            ends
            ∙ sym (summaries-balance (empty_supplier_summary p.id p.name) refl)
            ∙ ap (λ (t : SupplierSummaryRow). t.balance) (some-injective found)
        | inr other ↦ absurd (ground (arith, other, e))
      ]
