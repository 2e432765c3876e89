-- ===== src/Money/Rounding.antt =====
-- Rounding to cents.
use finance_reconciliation.Prelude.{ℕ, ◌+◌, ◌*◌, ◌≤◌, ◌≡◌, arith}
use finance_reconciliation.Money.Amount.{units_per_cent, round_cents}

-- The rounded amount is within half a cent of the exact one.
pub round_cents_near :
    (u : ℕ)
    → (2 * (round_cents u * units_per_cent) ≤ 2 * u + units_per_cent)
      × (2 * u ≤ 2 * (round_cents u * units_per_cent) + units_per_cent)
unfolding round_cents
round_cents_near u = ground arith

-- A whole number of cents is left as it is.
pub round_cents-whole : (c : ℕ) → round_cents (c * units_per_cent) ≡ c
unfolding round_cents
round_cents-whole c = ground arith
