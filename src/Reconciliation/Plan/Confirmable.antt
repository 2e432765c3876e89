-- ===== src/Reconciliation/Plan/Confirmable.antt =====
-- The plan of a batch that can be confirmed is one whose totals the confirmation accepts.
use finance_reconciliation.Prelude.{
  ℕ, ◌+◌, ◌*◌, ◌≡◌, refl, ap, sym, ◌∙◌, Bool, true, false, not, ◌&&◌, some, List, [], ◌∷◌, map,
  arith, any, all, contains, Dict, ◌==◌, ==_refl,
}
use finance_reconciliation.Prelude.Int.{ℤ, pos, negsuc, pos_part, ◌+ℤ◌, eqb_ℤ, leb_ℤ}
use finance_reconciliation.Money.Amount.{units_per_cent}
use finance_reconciliation.Reconciliation.Result.{ok}
use finance_reconciliation.Reconciliation.Settlements.Sums.{
  Total, finite, invoice_total, transaction_total, is_numeric, equals, validate_allocation_totals,
}
use finance_reconciliation.Reconciliation.Plan.Loop.{
  SettlementItem, AllocationRow, remaining, allocation_plan, as_allocation_inputs, total_unoccupied,
  can_confirm,
}
use finance_reconciliation.Reconciliation.Plan.Settles.{
  total_left, left_of, to_invoice, to_transaction, allocation_plan-Settles,
}

-- No amount is below zero, and no record is listed twice, as in the tables.
abbrev pub is_sound : List SettlementItem → Bool
is_sound [] = true
is_sound (i ∷ items) =
    leb_ℤ (pos 0) i.open_amount
    && not (contains i.record_id (map (λ j. j.record_id) items))
    && is_sound items

-- `invoice_open_amounts` and `transaction_open_amounts`, by the records of the batch.
abbrev pub open_by_record : List SettlementItem → Dict ℤ
open_by_record items = map (λ i. (i.record_id, i.open_amount)) items

total_unoccupied-total_left :
    (items : List SettlementItem)
    → is_sound items ≡ true
    → total_unoccupied items ≡ pos (total_left (map remaining items))
unfolding total_unoccupied ◌+ℤ◌
total_unoccupied-total_left [] h = refl
total_unoccupied-total_left (i ∷ items) h =
    let rest = total_unoccupied-total_left items (ground arith) in ground arith

invoice_total-to_invoice :
    (k : ℕ) (rows : List AllocationRow)
    → invoice_total k (as_allocation_inputs rows)
      ≡ finite (pos (to_invoice k rows * units_per_cent))
unfolding invoice_total as_allocation_inputs ◌+ℤ◌
invoice_total-to_invoice k [] = refl
invoice_total-to_invoice k (r ∷ rows) = ground (arith, invoice_total-to_invoice k rows)

transaction_total-to_transaction :
    (k : ℕ) (rows : List AllocationRow)
    → transaction_total k (as_allocation_inputs rows)
      ≡ finite (pos (to_transaction k rows * units_per_cent))
unfolding transaction_total as_allocation_inputs ◌+ℤ◌
transaction_total-to_transaction k [] = refl
transaction_total-to_transaction k (r ∷ rows) =
    ground (arith, transaction_total-to_transaction k rows)

all-is_numeric :
    (rows : List AllocationRow) → all (λ i. is_numeric i.amount) (as_allocation_inputs rows) ≡ true
unfolding as_allocation_inputs
all-is_numeric [] = refl
all-is_numeric (r ∷ rows) = all-is_numeric rows

left_of_absent :
    (k : ℕ) (items : List SettlementItem)
    → contains k (map (λ i. i.record_id) items) ≡ false
    → left_of k (map remaining items) ≡ 0
left_of_absent k [] h = refl
left_of_absent k (i ∷ items) h = ground (arith, left_of_absent k items)

absent-differs :
    (j k : ℕ) (ks : List ℕ) → contains k ks ≡ true → contains j ks ≡ false → (j == k) ≡ false
absent-differs j k [] isin out = cc
absent-differs j k (x ∷ ks) isin out = ground (arith, absent-differs j k ks)

left_of_other :
    (k : ℕ) (i : SettlementItem) (items : List SettlementItem)
    → (i.record_id == k) ≡ false
    → left_of k (map remaining (i ∷ items)) ≡ left_of k (map remaining items)
left_of_other k i items h = ground arith

left_of_self :
    (i : SettlementItem) (items : List SettlementItem)
    → i.occupied ≡ false
    → left_of i.record_id (map remaining items) ≡ 0
    → left_of i.record_id (map remaining (i ∷ items)) ≡ pos_part i.open_amount
left_of_self i items unoccupied absent = ground arith

entry_met :
    (t : Total) (z : ℤ)
    → leb_ℤ (pos 0) z ≡ true
    → t ≡ finite (pos (pos_part z * units_per_cent))
    → equals t z ≡ true
entry_met t (pos n) sound e = rw e (==_refl (n * units_per_cent + 0))
entry_met t (negsuc n) sound e = absurd (ground arith)

-- Where each listed key has the total that is left of it, each entry is met.
entries_met :
    (total : ℕ → Total) (items : List SettlementItem)
    → is_sound items ≡ true
    → any (λ i. i.occupied) items ≡ false
    → ((k : ℕ)
        → contains k (map (λ i. i.record_id) items) ≡ true
        → total k ≡ finite (pos (left_of k (map remaining items) * units_per_cent)))
    → all (λ e. equals (total e.0) e.1) (open_by_record items) ≡ true
entries_met total [] sound unoccupied h = refl
entries_met total (i ∷ items) sound unoccupied h =
    let absent = left_of_absent i.record_id items (ground arith) in
    let here = entry_met (total i.record_id) i.open_amount (ground arith) (
      h i.record_id (ground arith)
      ∙ ap (λ n. finite (pos (n * units_per_cent))) (left_of_self i items (ground arith) absent)) in
    let rest = entries_met total items (ground arith) (ground arith) (λ k isin.
      h k (ground arith)
      ∙ ap (λ n. finite (pos (n * units_per_cent)))
          (left_of_other k i items (absent-differs i.record_id k _ isin (ground arith)))) in
    rw (here, rest)

pos-injective : (a b : ℕ) → eqb_ℤ (pos a) (pos b) ≡ true → a ≡ b
pos-injective a b h = ground arith

-- Where no amount is below zero and no record is listed twice, `_validate_allocation_totals` accepts the
-- rows of `_allocation_plan` whenever `can_confirm` holds of them.
pub can_confirm-accepted :
    (invoices transactions : List SettlementItem) (rows : List AllocationRow)
    → is_sound invoices ≡ true
    → is_sound transactions ≡ true
    → allocation_plan invoices transactions ≡ some rows
    → can_confirm invoices transactions rows ≡ true
    → validate_allocation_totals
        (as_allocation_inputs rows)
        (open_by_record invoices)
        (open_by_record transactions)
      ≡ ok tt
unfolding can_confirm validate_allocation_totals
can_confirm-accepted invoices transactions rows sound sound' planned able =
    let s = allocation_plan-Settles invoices transactions in
    let same : s.rows ≡ rows = let f = s.found in cc in
    let t = total_unoccupied-total_left invoices sound in
    let t' = total_unoccupied-total_left transactions sound' in
    let equal : total_left (map remaining invoices) ≡ total_left (map remaining transactions) =
      ground (arith, t, t') in
    let of_invoices =
      entries_met (λ k. invoice_total k (as_allocation_inputs rows)) invoices sound (ground arith)
        (λ k isin.
          invoice_total-to_invoice k rows
          ∙ ap (λ n. finite (pos (n * units_per_cent)))
              (ap (to_invoice k) (sym same) ∙ s.invoices_used (omega (arith, equal)) k)) in
    let of_transactions =
      entries_met (λ k. transaction_total k (as_allocation_inputs rows)) transactions sound'
        (ground arith)
        (λ k isin.
          transaction_total-to_transaction k rows
          ∙ ap (λ n. finite (pos (n * units_per_cent)))
              (ap (to_transaction k) (sym same) ∙ s.transactions_used (omega (arith, equal)) k)) in
    rw (all-is_numeric rows, of_invoices, of_transactions)
