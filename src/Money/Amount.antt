-- ===== src/Money/Amount.antt =====
-- What a caller passes as an amount, and `quantize(MONEY_QUANTUM)` of
-- apps/reconciliation/services.py. A finite `Decimal` is an exact multiple of 10 ^ -28, the
-- precision of Python's default context; amounts in the database are whole cents.
use finance_reconciliation.Prelude.{
  ℕ, ◌+◌, ◌-◌, ◌*◌, ◌/◌, ◌%◌, ◌^◌, Bool, ◌&&◌, ◌||◌, ltb, ◌==◌, if◌then◌else◌,
}
use finance_reconciliation.Prelude.Int.{ℤ, pos, negsuc}

-- The units of 10 ^ -28 in a cent.
abbrev pub units_per_cent : ℕ
units_per_cent = 10 ^ 26

pub data Amount : Type 0 where
  -- a finite `Decimal`, in units of 10 ^ -28
  decimal : ℤ → Amount
  nan : Amount
  -- an infinity, and whether it is negative
  infinity : Bool → Amount
  -- a Python `int`, which adds to a `Decimal` but is none
  integer : ℤ → Amount
  -- any other object
  foreign : Amount

-- `ROUND_HALF_EVEN` to a cent.
unfoldable pub round_cents : ℕ → ℕ
round_cents u =
    let q = u / units_per_cent in
    let r = u % units_per_cent in
    if ltb units_per_cent (2 * r) || (2 * r == units_per_cent && q % 2 == 1) then q + 1 else q

-- `quantize` raises where the result has more digits than the context's 28.
abbrev pub max_coefficient : ℕ
max_coefficient = 10 ^ 28 - 1

-- `amount == amount.quantize(MONEY_QUANTUM)`, of an amount that is not negative.
abbrev pub is_whole_cents : ℕ → Bool
is_whole_cents u = u == round_cents u * units_per_cent

-- The cents that the database stores for an amount.
abbrev pub stored_cents : Amount → ℕ
stored_cents (decimal (pos u)) = round_cents u
stored_cents (decimal (negsuc n)) = 0
stored_cents nan = 0
stored_cents (infinity b) = 0
stored_cents (integer z) = 0
stored_cents foreign = 0
