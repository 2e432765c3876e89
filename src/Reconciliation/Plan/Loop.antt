-- ===== src/Reconciliation/Plan/Loop.antt =====
-- `_allocation_plan`, and the totals of `settlement_context`.
use finance_reconciliation.Prelude.{
  ℕ, zero, suc, ◌+◌, ◌-◌, ◌*◌, min, Bool, not, ◌&&◌, ◌||◌, Option, none, some, List, [], ◌∷◌, map,
  length, any, ◌==◌, if◌then◌else◌,
}
use finance_reconciliation.Prelude.Int.{ℤ, pos, pos_part, ◌+ℤ◌, eqb_ℤ}
use finance_reconciliation.Money.Amount.{decimal, units_per_cent}
use finance_reconciliation.Reconciliation.Services.Validation.{AllocationInput}

-- `SettlementItem`, with the key of its record; the amount is in cents.
pub record SettlementItem : Type 0 where
  pub record_id : ℕ
  pub open_amount : ℤ
  pub occupied : Bool

pub record AllocationRow : Type 0 where
  pub invoice_id : ℕ
  pub transaction_id : ℕ
  pub amount : ℕ

-- An entry of `invoice_remaining` or `transaction_remaining`, with the key of its item.
pub record Remaining : Type 0 where
  pub key : ℕ
  pub left : ℕ

abbrev pub remaining : SettlementItem → Remaining
remaining i = record { key = i.record_id; left = if i.occupied then 0 else pos_part i.open_amount }

-- What a turn of the loop does: it ends, moves an index, or appends a row. The lists are the entries
-- from the two indices on.
pub data Turn : Type 0 where
  finished : Turn
  moved : List Remaining → List Remaining → Turn
  allocated : AllocationRow → List Remaining → List Remaining → Turn

abbrev pub taken : Remaining → ℕ → Remaining
taken r amount = record { key = r.key; left = r.left - amount }

unfoldable pub turn : List Remaining → List Remaining → Turn
turn [] ts = finished
turn (i ∷ is) [] = finished
turn (i ∷ is) (t ∷ ts) =
    if i.left == 0
    then moved is (t ∷ ts)
    else if t.left == 0
    then moved (i ∷ is) ts
    else allocated
        (record { invoice_id = i.key; transaction_id = t.key; amount = min i.left t.left })
        (taken i (min i.left t.left) ∷ is) (taken t (min i.left t.left) ∷ ts)

abbrev pub append_row : AllocationRow → Option (List AllocationRow) → Option (List AllocationRow)
append_row row none = none
append_row row (some rows) = some (row ∷ rows)

-- What a turn does, and the turns that follow it.
abbrev pub follow :
    (List Remaining → List Remaining → Option (List AllocationRow))
    → Turn
    → Option (List AllocationRow)
follow onward finished = some []
follow onward (moved is ts) = onward is ts
follow onward (allocated row is ts) = append_row row (onward is ts)

-- The loop, for at most so many turns; `none` where these are not enough.
unfoldable pub turns : ℕ → List Remaining → List Remaining → Option (List AllocationRow)
turns zero is ts = none
turns (suc fuel) is ts = follow (turns fuel) (turn is ts)

-- `_allocation_plan`
unfoldable pub allocation_plan :
    List SettlementItem → List SettlementItem → Option (List AllocationRow)
allocation_plan invoices transactions =
    turns (suc (2 * (length invoices + length transactions))) (map remaining invoices)
      (map remaining transactions)

-- `as_allocation_inputs`
unfoldable pub as_allocation_inputs : List AllocationRow → List AllocationInput
as_allocation_inputs rows =
    map
      (λ r. record {
        invoice_id = r.invoice_id;
        transaction_id = r.transaction_id;
        amount = decimal (pos (r.amount * units_per_cent));
      })
      rows

-- `invoice_total` and `money_total` of `settlement_context`.
unfoldable pub total_unoccupied : List SettlementItem → ℤ
total_unoccupied [] = pos 0
total_unoccupied (i ∷ items) =
    let rest = total_unoccupied items in if i.occupied then rest else i.open_amount +ℤ rest

-- `can_confirm`
unfoldable pub can_confirm : List SettlementItem → List SettlementItem → List AllocationRow → Bool
can_confirm invoices transactions rows =
    not (length rows == 0)
    && eqb_ℤ (total_unoccupied invoices) (total_unoccupied transactions)
    && not (any (λ i. i.occupied) invoices || any (λ i. i.occupied) transactions)
