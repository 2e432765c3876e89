-- ===== src/Reporting/Sound/Imported.antt =====
-- The exceptions that come from the reconciliations and the imports (apps/reporting/queries.py).
use finance_reconciliation.Prelude.{
  ℕ, ◌≡◌, refl, sym, ◌∙◌, true, not, ◌&&◌, List, [], ◌∷◌, map, select, arith, ltb, leb, ◌==◌, All,
  Bool-cases, inl, inr,
}
use finance_reconciliation.Ledger.{is_normal, local_date}
use finance_reconciliation.Reporting.Sorting.{
  All-sort_by, All-select, All-map, All-++, All-step, All-select_both,
}
use finance_reconciliation.Reporting.Amounts.{
  DatedAllocation, DatedInvoice, BatchEntry, Records, cutoff, historically_valid, Annotated,
  invoice_with_open,
}
use finance_reconciliation.Reporting.Present.{cutoff-local_date}
use finance_reconciliation.Reporting.Exceptions.{ExceptionItem}
use finance_reconciliation.Reporting.Differences.{
  difference_of, difference_items, differences, partial_reconciliation_exceptions,
}
use finance_reconciliation.Reporting.Imported.{
  mapping_issue_exceptions, unmapped_item, duplicate_exceptions, duplicate_row_item,
  duplicate_batch_item, is_duplicate_batch, duplicate_staged, incomplete_periods, partial_batches,
  history_exceptions, period_item, partial_batch_item,
}
use finance_reconciliation.Reporting.Items.{red_item, red_allocation_exceptions}
use finance_reconciliation.Reporting.Sound.{is_sound, Sound}

Sound-map :
    {A : Type 0} (as_of : ℕ) (f : A → ExceptionItem) (xs : List A)
    → ((x : A) → is_sound as_of (f x) ≡ true)
    → Sound as_of (map f xs)
Sound-map as_of f [] h = tt
Sound-map as_of f (x ∷ xs) h = (h x, Sound-map as_of f xs h)

module _ (records : Records) (as_of : ℕ) where
  abbrev IsCreated : DatedAllocation → Type 0
  IsCreated a = ltb a.created_at (cutoff as_of) ≡ true

  difference_items-Sound :
      (group : List DatedAllocation)
      → All IsCreated group
      → Sound as_of (difference_items records as_of group)
  difference_items-Sound [] h = tt
  difference_items-Sound (a ∷ group) (h, hs) =
      let day : leb (local_date a.created_at) as_of ≡ true =
        sym (cutoff-local_date a.created_at as_of) ∙ h in
      elim (Bool-cases (leb (difference_of records as_of (a ∷ group)) 0)) [
        | inl equal ↦ rw equal tt
        | inr apart ↦ rw apart (ground (arith, apart, day), tt)
      ]

  differences-Sound :
      (allocations : List DatedAllocation) (keys : List ℕ)
      → All IsCreated allocations
      → Sound as_of (differences records as_of allocations keys)
  unfolding differences
  differences-Sound allocations [] h = tt
  differences-Sound allocations (k ∷ keys) h =
      All-++ _ (difference_items records as_of (select (λ a. a.reconciliation == k) allocations)) _
        (difference_items-Sound _ (
          All-step _ IsCreated _ (λ a both. both.0)
            (All-select_both IsCreated (λ a. a.reconciliation == k) allocations h)))
        (differences-Sound allocations keys h)

  pub partial_reconciliation_exceptions-Sound :
      Sound as_of (partial_reconciliation_exceptions records as_of)
  unfolding partial_reconciliation_exceptions historically_valid
  partial_reconciliation_exceptions-Sound = differences-Sound _ _ (
      All-sort_by IsCreated _ _ (
        All-step _ IsCreated _ (λ a h. ground (arith, h))
          (All-select (historically_valid (cutoff as_of)) records.allocations)))

  pub mapping_issue_exceptions-Sound : Sound as_of (mapping_issue_exceptions records as_of)
  unfolding mapping_issue_exceptions
  mapping_issue_exceptions-Sound = Sound-map as_of (unmapped_item records as_of) _ (λ row. refl)

  pub duplicate_exceptions-Sound : Sound as_of (duplicate_exceptions records as_of)
  unfolding duplicate_exceptions
  duplicate_exceptions-Sound =
      All-++ _ (map (duplicate_row_item records as_of) (duplicate_staged records as_of)) _
        (Sound-map as_of (duplicate_row_item records as_of) (duplicate_staged records as_of)
          (λ row. refl))
        (All-map (λ (b : BatchEntry). leb (local_date b.created_at) as_of ≡ true) _
          (duplicate_batch_item records as_of) _ (λ b h. ground (arith, h))
          (All-sort_by _ _ _ (
            All-step _ _ _
              (λ (b : BatchEntry) h. sym (cutoff-local_date b.created_at as_of) ∙ ground (arith, h))
              (All-select (is_duplicate_batch records as_of) records.batches))))

  pub red_allocation_exceptions-Sound : Sound as_of (red_allocation_exceptions records as_of)
  unfolding red_allocation_exceptions invoice_with_open
  red_allocation_exceptions-Sound =
      All-map
        (λ (i : Annotated DatedInvoice).
          (leb i.row.invoice.issue_date as_of ≡ true) × (ltb 0 i.allocated_amount ≡ true))
        _ (red_item records as_of) _ (λ i h. ground (arith, h))
        (All-sort_by _ _ _ (
          All-select_both
            (λ (i : Annotated DatedInvoice). leb i.row.invoice.issue_date as_of ≡ true)
            (λ i. ltb 0 i.allocated_amount) _
            (All-map
              (λ (i : DatedInvoice).
                (not (is_normal i.invoice.status) && leb i.invoice.issue_date as_of) ≡ true)
              _ (invoice_with_open records as_of) _ (λ i h. ground (arith, h))
              (All-select (λ i. not (is_normal i.invoice.status) && leb i.invoice.issue_date as_of)
                records.invoices))))

  pub history_exceptions-Sound : Sound as_of (history_exceptions records as_of)
  unfolding history_exceptions
  history_exceptions-Sound =
      All-++ _ (map (period_item records as_of) (incomplete_periods records as_of)) _
        (Sound-map as_of (period_item records as_of) (incomplete_periods records as_of) (λ p. refl))
        (Sound-map as_of (partial_batch_item records as_of) (partial_batches records as_of)
          (λ b. refl))
