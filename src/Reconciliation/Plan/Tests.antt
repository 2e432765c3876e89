-- ===== src/Reconciliation/Plan/Tests.antt =====
-- A concrete plan, and instances of the theorems on it.
use finance_reconciliation.Prelude.{ℕ, ◌≡◌, refl, true, false, some, List, [], ◌∷◌, map, All}
use finance_reconciliation.Prelude.Int.{pos, negsuc, ◌+ℤ◌}
use finance_reconciliation.Reconciliation.Plan.Loop.{
  SettlementItem, AllocationRow, remaining, turn, turns, allocation_plan, as_allocation_inputs,
  total_unoccupied, can_confirm,
}
use finance_reconciliation.Reconciliation.Result.{ok}
use finance_reconciliation.Reconciliation.Settlements.Sums.{validate_allocation_totals}
use finance_reconciliation.Reconciliation.Plan.Confirmable.{open_by_record, can_confirm-accepted}
use finance_reconciliation.Reconciliation.Plan.Direct.{
  IsFitting, direct_allocation_rows, open_items, proposed, direct_allocation_rows-fits,
}
use finance_reconciliation.Reconciliation.Plan.Settles.{Settles, allocation_plan-Settles}

abbrev item : ℕ → ℕ → SettlementItem
item k amount = record { record_id = k; open_amount = pos amount; occupied = false }

abbrev invoices : List SettlementItem
invoices = item 1 70 ∷ item 2 50 ∷ []

abbrev payments : List SettlementItem
payments =
    item 11 40
    ∷ record { record_id = 12; open_amount = pos 30; occupied = true }
    ∷ record { record_id = 13; open_amount = negsuc 4; occupied = false }
    ∷ item 14 80
    ∷ []

abbrev row : ℕ → ℕ → ℕ → AllocationRow
row i t amount = record { invoice_id = i; transaction_id = t; amount = amount }

allocation_plan-invoices :
    allocation_plan invoices payments ≡ some (row 1 11 40 ∷ row 1 14 30 ∷ row 2 14 50 ∷ [])
unfolding allocation_plan turns turn
allocation_plan-invoices = refl

allocation_plan-Settles_example :
    Settles (map remaining invoices) (map remaining payments) (allocation_plan invoices payments)
allocation_plan-Settles_example = allocation_plan-Settles invoices payments

abbrev payments_left : List SettlementItem
payments_left = item 11 40 ∷ item 14 80 ∷ []

abbrev plan : List AllocationRow
plan = row 1 11 40 ∷ row 1 14 30 ∷ row 2 14 50 ∷ []

plan-found : allocation_plan invoices payments_left ≡ some plan
unfolding allocation_plan-invoices
plan-found = refl

plan-can_confirm : can_confirm invoices payments_left plan ≡ true
unfolding can_confirm total_unoccupied ◌+ℤ◌
plan-can_confirm = refl

can_confirm-accepted_example :
    validate_allocation_totals
      (as_allocation_inputs plan)
      (open_by_record invoices)
      (open_by_record payments_left)
    ≡ ok tt
can_confirm-accepted_example =
    can_confirm-accepted invoices payments_left plan refl refl plan-found plan-can_confirm

direct_allocation_rows-fits_example :
    All IsFitting (direct_allocation_rows (open_items ((1, 30) ∷ (2, 90) ∷ [])) (pos 100))
    × (proposed (direct_allocation_rows (open_items ((1, 30) ∷ (2, 90) ∷ [])) (pos 100)) ≡ 100)
direct_allocation_rows-fits_example = direct_allocation_rows-fits ((1, 30) ∷ (2, 90) ∷ []) 100
