-- ===== src/Reporting/Differences.antt =====
-- `_partial_reconciliation_exceptions` of apps/reporting/queries.py: the reconciliations after which invoices
-- and payments are open by different amounts.
use finance_reconciliation.Prelude.{
  ℕ, ◌+◌, not, none, some, List, [], ◌∷◌, ◌++◌, map, select, find, leb, ◌==◌, if◌then◌else◌,
}
use finance_reconciliation.Prelude.Int.{ℤ, pos, pos_part, neg_part, ◌+ℤ◌, ◌-ℤ◌}
use finance_reconciliation.Ledger.{local_date}
use finance_reconciliation.Reporting.Amounts.{
  DatedAllocation, Records, cutoff, historically_valid, invoice_with_open, payment_with_open,
}
use finance_reconciliation.Reporting.Suppliers.{sort_by}
use finance_reconciliation.Reporting.Exceptions.{
  reconciliation_difference, unbalanced_reconciliation, several_parties, ExceptionItem,
}

-- The numbers of a list as a set, in the order of their first occurrences.
abbrev pub distinct : List ℕ → List ℕ
distinct [] = []
distinct (k ∷ ks) = k ∷ select (λ j. not (j == k)) (distinct ks)

abbrev pub sum_ℤ : List ℤ → ℤ
sum_ℤ [] = pos 0
sum_ℤ (z ∷ zs) = z +ℤ sum_ℤ zs

-- `abs`
abbrev pub distance : ℤ → ℕ
distance z = pos_part z + neg_part z

module _ (records : Records) (as_of : ℕ) where
  -- What is open of an invoice, or of a payment, that an allocation names: it is in its table.
  abbrev invoice_open : ℕ → ℤ
  invoice_open k = elim (find (λ i. i.invoice.id == k) records.invoices) [
    | none ↦ pos 0
    | some i ↦ (invoice_with_open records as_of i).open_amount
  ]

  abbrev money_open : ℕ → ℤ
  money_open k = elim (find (λ m. m.id == k) records.transactions) [
    | none ↦ pos 0
    | some m ↦ (payment_with_open records as_of m).open_amount
  ]

  -- Of the allocations of one reconciliation: the absolute difference of what remains open.
  unfoldable pub difference_of : List DatedAllocation → ℕ
  unfolding invoice_with_open payment_with_open
  difference_of group = distance (
      sum_ℤ (map invoice_open (distinct (map (λ a. a.invoice) group)))
      -ℤ sum_ℤ (map money_open (distinct (map (λ a. a.transaction) group))))

  abbrev pub difference_item : DatedAllocation → ℕ → ExceptionItem
  difference_item first difference = record {
    kind = reconciliation_difference;
    reference_id = first.reconciliation;
    occurred_on = some (local_date first.created_at);
    counterparty_name = several_parties;
    amount = some (pos difference);
    detail = unbalanced_reconciliation;
  }

  abbrev pub difference_items : List DatedAllocation → List ExceptionItem
  difference_items [] = []
  difference_items (first ∷ group) =
      let difference = difference_of (first ∷ group) in
      if leb difference 0 then [] else difference_item first difference ∷ []

  -- The loop over `grouped`, by the keys in their order.
  unfoldable pub differences : List DatedAllocation → List ℕ → List ExceptionItem
  unfolding difference_of
  differences allocations [] = []
  differences allocations (k ∷ keys) =
      difference_items (select (λ a. a.reconciliation == k) allocations)
      ++ differences allocations keys

  abbrev pub valid_allocations : List DatedAllocation
  valid_allocations =
      sort_by (λ a b. leb a.reconciliation b.reconciliation)
        (select (historically_valid (cutoff as_of)) records.allocations)

  -- `_partial_reconciliation_exceptions`
  unfoldable pub partial_reconciliation_exceptions : List ExceptionItem
  unfolding historically_valid differences
  partial_reconciliation_exceptions =
      differences valid_allocations (distinct (map (λ a. a.reconciliation) valid_allocations))
