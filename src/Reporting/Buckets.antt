-- ===== src/Reporting/Buckets.antt =====
-- The buckets of the dashboard (apps/reporting/dashboard.py) against its totals.
use finance_reconciliation.Prelude.{
  ℕ, ◌≡◌, refl, ap, ◌∙◌, Bool, true, false, List, [], ◌∷◌, map, select, arith, if◌then◌else◌,
}
use finance_reconciliation.Prelude.Int.{ℤ, pos, ◌+ℤ◌, +ℤ_parts, eq_of_parts}
use finance_reconciliation.Reporting.Amounts.{
  Records, Aging, days_0_30, days_31_60, days_61_90, days_over_90,
}
use finance_reconciliation.Reporting.Open.{OpenInvoiceRow, receivables_as_of, payables_as_of}
use finance_reconciliation.Reporting.Differences.{sum_ℤ}
use finance_reconciliation.Reporting.Dashboard.{
  Due, overdue, within_7, days_8_30, over_30, Funds, open_where, aging_eq, due_eq, due_label,
  month_bounds, dashboard_payload,
}

-- The sum of four.
abbrev pub sum_of_four : ℤ → ℤ → ℤ → ℤ → ℤ
sum_of_four a b c d = a +ℤ (b +ℤ (c +ℤ d))

abbrev add_if : Bool → ℤ → ℤ → ℤ
add_if true x z = x +ℤ z
add_if false x z = z

+ℤ_swap : (a x z : ℤ) → a +ℤ (x +ℤ z) ≡ x +ℤ (a +ℤ z)
+ℤ_swap a x z =
    eq_of_parts _ _
      (omega (arith, +ℤ_parts a (x +ℤ z), +ℤ_parts x z, +ℤ_parts x (a +ℤ z), +ℤ_parts a z))

+ℤ_assoc : (a b c : ℤ) → (a +ℤ b) +ℤ c ≡ a +ℤ (b +ℤ c)
+ℤ_assoc a b c =
    eq_of_parts _ _
      (omega (arith, +ℤ_parts (a +ℤ b) c, +ℤ_parts a b, +ℤ_parts a (b +ℤ c), +ℤ_parts b c))

open_where-step :
    (p : OpenInvoiceRow → Bool) (r : OpenInvoiceRow) (rows : List OpenInvoiceRow)
    → open_where p (r ∷ rows) ≡ add_if (p r) r.open_amount (open_where p rows)
open_where-step p r rows = go (p r)
  where
    go :
        (taken : Bool)
        → sum_ℤ (
            map
              (λ (s : OpenInvoiceRow). s.open_amount)
              (if taken then r ∷ select p rows else select p rows))
          ≡ add_if taken r.open_amount (open_where p rows)
    go true = refl
    go false = refl

aging-step :
    (label : Aging) (x a b c d : ℤ)
    → sum_of_four
        (add_if (aging_eq label days_0_30) x a)
        (add_if (aging_eq label days_31_60) x b)
        (add_if (aging_eq label days_61_90) x c)
        (add_if (aging_eq label days_over_90) x d)
      ≡ x +ℤ sum_of_four a b c d
aging-step days_0_30 x a b c d = +ℤ_assoc x a _
aging-step days_31_60 x a b c d = ap (λ (z : ℤ). a +ℤ z) (+ℤ_assoc x b _) ∙ +ℤ_swap a x _
aging-step days_61_90 x a b c d =
    ap (λ (z : ℤ). a +ℤ (b +ℤ z)) (+ℤ_assoc x c d)
    ∙ ap (λ (z : ℤ). a +ℤ z) (+ℤ_swap b x _)
    ∙ +ℤ_swap a x _
aging-step days_over_90 x a b c d =
    ap (λ (z : ℤ). a +ℤ (b +ℤ z)) (+ℤ_swap c x d)
    ∙ ap (λ (z : ℤ). a +ℤ z) (+ℤ_swap b x _)
    ∙ +ℤ_swap a x _

due-step :
    (label : Due) (x a b c d : ℤ)
    → sum_of_four
        (add_if (due_eq label overdue) x a)
        (add_if (due_eq label within_7) x b)
        (add_if (due_eq label days_8_30) x c)
        (add_if (due_eq label over_30) x d)
      ≡ x +ℤ sum_of_four a b c d
due-step overdue x a b c d = aging-step days_0_30 x a b c d
due-step within_7 x a b c d = aging-step days_31_60 x a b c d
due-step days_8_30 x a b c d = aging-step days_61_90 x a b c d
due-step over_30 x a b c d = aging-step days_over_90 x a b c d

sum_of_four-zero : sum_of_four (pos 0) (pos 0) (pos 0) (pos 0) ≡ pos 0
unfolding ◌+ℤ◌
sum_of_four-zero = refl

-- A way to sort rows into four buckets.
module _ {L : Type 0} (label : OpenInvoiceRow → L) (same : L → L → Bool) (l₁ l₂ l₃ l₄ : L)
    (step : (l : L) (x a b c d : ℤ)
      → sum_of_four
          (add_if (same l l₁) x a)
          (add_if (same l l₂) x b)
          (add_if (same l l₃) x c)
          (add_if (same l l₄) x d)
        ≡ x +ℤ sum_of_four a b c d) where
  buckets-total :
      (rows : List OpenInvoiceRow)
      → sum_of_four
          (open_where (λ r. same (label r) l₁) rows)
          (open_where (λ r. same (label r) l₂) rows)
          (open_where (λ r. same (label r) l₃) rows)
          (open_where (λ r. same (label r) l₄) rows)
        ≡ sum_ℤ (map (λ r. r.open_amount) rows)
  buckets-total [] = sum_of_four-zero
  buckets-total (r ∷ rows) = rw (open_where-step (λ r. same (label r) l₁) r rows) (
      rw (open_where-step (λ r. same (label r) l₂) r rows) (
        rw (open_where-step (λ r. same (label r) l₃) r rows) (
          rw (open_where-step (λ r. same (label r) l₄) r rows) (
            step (label r) r.open_amount _ _ _ _
            ∙ ap (λ (z : ℤ). r.open_amount +ℤ z) (buckets-total rows)))))

-- The amounts of the four aging buckets of the dashboard add up to its receivables, and those of the
-- four due buckets to its payables.
pub dashboard_payload-buckets :
    (records : Records) (funds : Funds) (month : ℕ)
    → let shown = dashboard_payload records funds month in
      (sum_of_four
          (shown.receivable_aging days_0_30)
          (shown.receivable_aging days_31_60)
          (shown.receivable_aging days_61_90)
          (shown.receivable_aging days_over_90)
        ≡ shown.receivables)
      × (sum_of_four
            (shown.payable_due_buckets overdue)
            (shown.payable_due_buckets within_7)
            (shown.payable_due_buckets days_8_30)
            (shown.payable_due_buckets over_30)
          ≡ shown.payables)
unfolding dashboard_payload
dashboard_payload-buckets records funds month =
    let as_of = (month_bounds month).1 in
    (
      buckets-total (λ r. r.aging) aging_eq days_0_30 days_31_60 days_61_90 days_over_90 aging-step
          (receivables_as_of records as_of),
      buckets-total (λ r. due_label r.due_date r.issue_date as_of) due_eq overdue within_7 days_8_30
          over_30 due-step (payables_as_of records as_of),
    )
