-- ===== src/Reconciliation/Settlements/Sums.antt =====
-- `_validate_allocation_totals` of apps/reconciliation/settlements.py: the amounts of a batch, added up
-- for each record.
use finance_reconciliation.Prelude.{
  ℕ, suc, ◌-◌, ◌*◌, Bool, true, false, List, [], ◌∷◌, all, Dict, ◌==◌, if◌then◌else◌,
}
use finance_reconciliation.Prelude.Int.{ℤ, pos, negsuc, ◌+ℤ◌, eqb_ℤ}
use finance_reconciliation.Money.Amount.{
  Amount, decimal, nan, infinity, integer, foreign, units_per_cent,
}
use finance_reconciliation.Reconciliation.Result.{Result, guard, ◌>>◌, type_error, totals_mismatch}
use finance_reconciliation.Reconciliation.Services.Validation.{AllocationInput}

-- A running total in `_validate_allocation_totals`, in units of 10 ^ -28; NaN and infinities stay.
-- The sum is exact, where `Decimal` rounds one of more than 28 digits.
pub data Total : Type 0 where
  finite : ℤ → Total
  not_finite : Total

abbrev pub to_units : ℤ → ℤ
to_units (pos n) = pos (n * units_per_cent)
to_units (negsuc n) = negsuc (suc n * units_per_cent - 1)

-- An `int` counts whole currency units, of a hundred cents.
abbrev pub hundredfold : ℤ → ℤ
hundredfold (pos n) = pos (n * 100)
hundredfold (negsuc n) = negsuc (suc n * 100 - 1)

abbrev pub plus : Amount → Total → Total
plus (decimal u) (finite t) = finite (u +ℤ t)
plus (integer z) (finite t) = finite (to_units (hundredfold z) +ℤ t)
plus nan t = not_finite
plus (infinity b) t = not_finite
plus foreign t = not_finite
plus (decimal u) not_finite = not_finite
plus (integer z) not_finite = not_finite

-- The entry of a key in `invoice_totals`, and in `transaction_totals`.
unfoldable pub invoice_total : ℕ → List AllocationInput → Total
invoice_total k [] = finite (pos 0)
invoice_total k (i ∷ items) =
    let rest = invoice_total k items in if i.invoice_id == k then plus i.amount rest else rest

unfoldable pub transaction_total : ℕ → List AllocationInput → Total
transaction_total k [] = finite (pos 0)
transaction_total k (i ∷ items) =
    let rest = transaction_total k items in
    if i.transaction_id == k then plus i.amount rest else rest

abbrev pub is_numeric : Amount → Bool
is_numeric foreign = false
is_numeric (decimal u) = true
is_numeric nan = true
is_numeric (infinity b) = true
is_numeric (integer z) = true

abbrev pub equals : Total → ℤ → Bool
equals (finite u) cents = eqb_ℤ u (to_units cents)
equals not_finite cents = false

-- `_validate_allocation_totals`; adding what is no number to a `Decimal` is a `TypeError`.
unfoldable pub validate_allocation_totals :
    List AllocationInput → Dict ℤ → Dict ℤ → Result (Unit {0})
validate_allocation_totals items invoice_open transaction_open = do
  guard (all (λ i. is_numeric i.amount) items) type_error
  guard (all (λ e. equals (invoice_total e.0 items) e.1) invoice_open) totals_mismatch
  guard (all (λ e. equals (transaction_total e.0 items) e.1) transaction_open) totals_mismatch
