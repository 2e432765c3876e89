-- ===== src/Reconciliation/Plan/Direct.antt =====
-- `direct_allocation_rows` of apps/reconciliation/presenters.py: what is proposed for one invoice.
use finance_reconciliation.Prelude.{
  ℕ, ◌+◌, ◌-◌, ◌≡◌, Bool, true, List, [], ◌∷◌, map, arith, min, All,
}
use finance_reconciliation.Prelude.Int.{ℤ, pos, pos_part, ◌-ℤ◌, ltb_ℤ, leb_ℤ, min_ℤ}

-- An available payment.
pub record DirectItem : Type 0 where
  pub record_id : ℕ
  pub open_amount : ℤ

pub record DirectRow : Type 0 where
  pub item : DirectItem
  -- the amount that `allocation_input` prints
  pub allocation : ℤ
  pub selected : Bool

-- `direct_allocation_rows`, in cents, with what remains of the invoice.
unfoldable pub direct_allocation_rows : List DirectItem → ℤ → List DirectRow
direct_allocation_rows [] remaining = []
direct_allocation_rows (i ∷ items) remaining =
    record {
      item = i;
      allocation = min_ℤ remaining i.open_amount;
      selected = ltb_ℤ (pos 0) (min_ℤ remaining i.open_amount);
    }
    ∷ direct_allocation_rows items (remaining -ℤ min_ℤ remaining i.open_amount)

abbrev pub available_total : List ℕ → ℕ
available_total [] = 0
available_total (n ∷ ns) = n + available_total ns

abbrev pub proposed : List DirectRow → ℕ
proposed [] = 0
proposed (r ∷ rows) = pos_part r.allocation + proposed rows

-- An amount that fits: from zero to what is open of the payment.
abbrev pub IsFitting : DirectRow → Type 0
IsFitting r = (leb_ℤ (pos 0) r.allocation ≡ true) × (leb_ℤ r.allocation r.item.open_amount ≡ true)

abbrev pub open_items : List (ℕ × ℕ) → List DirectItem
open_items items = map (λ i. record { record_id = i.0; open_amount = pos i.1 }) items

after_min : (n m : ℕ) → pos n -ℤ min_ℤ (pos n) (pos m) ≡ pos (n - m)
unfolding ◌-ℤ◌
after_min n m = ground arith

-- For payments with nothing below zero open, and an invoice likewise, the rows propose amounts that fit
-- the payments, and together the less of what is open of the invoice and of all the payments.
pub direct_allocation_rows-fits :
    (items : List (ℕ × ℕ)) (remaining : ℕ)
    → All IsFitting (direct_allocation_rows (open_items items) (pos remaining))
      × (proposed (direct_allocation_rows (open_items items) (pos remaining))
          ≡ min remaining (available_total (map (λ i. i.1) items)))
unfolding direct_allocation_rows
direct_allocation_rows-fits [] remaining = (tt, omega arith)
direct_allocation_rows-fits ((k, m) ∷ items) remaining =
    let (fits, total) = direct_allocation_rows-fits items (remaining - m) in
    rw (after_min remaining m) (((ground arith, ground arith), fits), ground (arith, total))
