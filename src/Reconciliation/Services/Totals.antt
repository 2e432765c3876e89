-- ===== src/Reconciliation/Services/Totals.antt =====
-- The totals that the loop of `_validate_allocations` collects are those of the rows that
-- `create_reconciliation` writes.
use finance_reconciliation.Prelude.{
  ℕ, ◌+◌, ◌<◌, ◌≡◌, refl, true, false, ◌&&◌, List, [], ◌∷◌, map, arith, sum_where, total_of,
  total_of-add_to, ◌==◌,
}
use finance_reconciliation.Prelude.Int.{pos, negsuc}
use finance_reconciliation.Money.Amount.{
  Amount, decimal, nan, infinity, integer, foreign, stored_cents,
}
use finance_reconciliation.Reconciliation.Result.{ok, >>=-eq-ok}
use finance_reconciliation.Reconciliation.Database.{Direction, Database, is_active, Reversal}
use finance_reconciliation.Reconciliation.Services.Validation.{
  AllocationInput, Requested, tally, checked_cents, validate_item, validate_items,
}
use finance_reconciliation.Reconciliation.Services.Operations.{allocation_row}

-- What the items ask of one invoice, and of one payment, in stored cents.
abbrev pub asked_of_invoice : ℕ → List AllocationInput → ℕ
asked_of_invoice k = sum_where (λ i. i.invoice_id == k) (λ i. stored_cents i.amount)

abbrev pub asked_of_transaction : ℕ → List AllocationInput → ℕ
asked_of_transaction k = sum_where (λ i. i.transaction_id == k) (λ i. stored_cents i.amount)

pub checked_cents-eq-stored_cents :
    (a : Amount) (c : ℕ) → checked_cents a ≡ ok c → (stored_cents a ≡ c) × (0 < c)
unfolding checked_cents
checked_cents-eq-stored_cents (decimal (pos u)) c h = ground arith
checked_cents-eq-stored_cents (decimal (negsuc n)) c h = cc
checked_cents-eq-stored_cents nan c h = cc
checked_cents-eq-stored_cents (infinity true) c h = cc
checked_cents-eq-stored_cents (infinity false) c h = cc
checked_cents-eq-stored_cents (integer z) c h = cc
checked_cents-eq-stored_cents foreign c h = cc

pub validate_item-cents :
    (d : Direction) (db : Database) (item : AllocationInput) (c : ℕ)
    → validate_item d db item ≡ ok c
    → checked_cents item.amount ≡ ok c
unfolding validate_item
validate_item-cents d db item c h = ground arith

module _ (d : Direction) (db : Database) where
  pub validate_items-by_invoice :
      (k : ℕ) (items : List AllocationInput) (acc acc' : Requested)
      → validate_items d db items acc ≡ ok acc'
      → total_of k acc'.by_invoice ≡ total_of k acc.by_invoice + asked_of_invoice k items
  unfolding validate_items
  validate_items-by_invoice k [] acc acc' h = ground arith
  validate_items-by_invoice k (i ∷ items) acc acc' h =
      let (c, first, rest) =
        >>=-eq-ok (validate_item d db i) (λ c. validate_items d db items (tally i c acc)) h in
      ground (
        arith,
        validate_items-by_invoice k items (tally i c acc) acc' rest,
        checked_cents-eq-stored_cents i.amount c (validate_item-cents d db i c first),
        total_of-add_to i.invoice_id k c acc.by_invoice,
      )

  pub validate_items-by_transaction :
      (k : ℕ) (items : List AllocationInput) (acc acc' : Requested)
      → validate_items d db items acc ≡ ok acc'
      → total_of k acc'.by_transaction
        ≡ total_of k acc.by_transaction + asked_of_transaction k items
  unfolding validate_items
  validate_items-by_transaction k [] acc acc' h = ground arith
  validate_items-by_transaction k (i ∷ items) acc acc' h =
      let (c, first, rest) =
        >>=-eq-ok (validate_item d db i) (λ c. validate_items d db items (tally i c acc)) h in
      ground (
        arith,
        validate_items-by_transaction k items (tally i c acc) acc' rest,
        checked_cents-eq-stored_cents i.amount c (validate_item-cents d db i c first),
        total_of-add_to i.transaction_id k c acc.by_transaction,
      )

-- The new rows, of a reconciliation that is active, add to an invoice what the items ask of it.
pub sum_where-allocation_row_invoice :
    (reversals : List Reversal) (r k : ℕ) (items : List AllocationInput)
    → is_active reversals r ≡ true
    → sum_where
        (λ a. a.invoice == k && is_active reversals a.reconciliation)
        (λ a. a.amount)
        (map (allocation_row r) items)
      ≡ asked_of_invoice k items
sum_where-allocation_row_invoice reversals r k [] h = refl
sum_where-allocation_row_invoice reversals r k (i ∷ items) h =
    ground (arith, sum_where-allocation_row_invoice reversals r k items h)

pub sum_where-allocation_row_transaction :
    (reversals : List Reversal) (r k : ℕ) (items : List AllocationInput)
    → is_active reversals r ≡ true
    → sum_where
        (λ a. a.transaction == k && is_active reversals a.reconciliation)
        (λ a. a.amount)
        (map (allocation_row r) items)
      ≡ asked_of_transaction k items
sum_where-allocation_row_transaction reversals r k [] h = refl
sum_where-allocation_row_transaction reversals r k (i ∷ items) h =
    ground (arith, sum_where-allocation_row_transaction reversals r k items h)
