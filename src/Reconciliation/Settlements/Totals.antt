-- ===== src/Reconciliation/Settlements/Totals.antt =====
-- The totals of a batch in units agree with those of its rows in cents.
use finance_reconciliation.Prelude.{
  ℕ, ◌+◌, ◌*◌, ◌≡◌, refl, true, false, Dict, List, [], ◌∷◌, arith, all, contains, ◌==◌, Bool-cases,
  inl, inr,
}
use finance_reconciliation.Prelude.Int.{ℤ, pos, negsuc, ◌+ℤ◌, sub_ℕ}
use finance_reconciliation.Money.Amount.{
  Amount, decimal, nan, infinity, integer, foreign, units_per_cent, stored_cents,
}
use finance_reconciliation.Reconciliation.Result.{Result, ok, >>=-eq-ok}
use finance_reconciliation.Reconciliation.Database.{Direction, Database}
use finance_reconciliation.Reconciliation.Services.Validation.{
  AllocationInput, Requested, tally, checked_cents, validate_item, validate_items,
}
use finance_reconciliation.Reconciliation.Services.Totals.{
  asked_of_invoice, asked_of_transaction, validate_item-cents,
}
use finance_reconciliation.Reconciliation.Settlements.Sums.{
  Total, finite, plus, equals, invoice_total, transaction_total,
}
use finance_reconciliation.Reconciliation.Settlements.Confirm.{member_amounts}

-- An accepted amount is a whole number of cents, the one that is stored.
checked_cents-exact :
    (a : Amount) (c : ℕ)
    → checked_cents a ≡ ok c
    → a ≡ decimal (pos (stored_cents a * units_per_cent))
unfolding checked_cents
checked_cents-exact (decimal (pos u)) c h = ground arith
checked_cents-exact (decimal (negsuc n)) c h = cc
checked_cents-exact nan c h = cc
checked_cents-exact (infinity true) c h = cc
checked_cents-exact (infinity false) c h = cc
checked_cents-exact (integer z) c h = cc
checked_cents-exact foreign c h = cc

plus-cents :
    (a : Amount) (c n : ℕ)
    → a ≡ decimal (pos (c * units_per_cent))
    → plus a (finite (pos (n * units_per_cent))) ≡ finite (pos ((c + n) * units_per_cent))
unfolding ◌+ℤ◌
plus-cents a c n e = rw e (ground arith)

module _ (d : Direction) (db : Database) (k : ℕ) where
  pub invoice_total-asked :
      (items : List AllocationInput) (acc acc' : Requested)
      → validate_items d db items acc ≡ ok acc'
      → invoice_total k items ≡ finite (pos (asked_of_invoice k items * units_per_cent))
  unfolding validate_items invoice_total
  invoice_total-asked [] acc acc' h = refl
  invoice_total-asked (i ∷ items) acc acc' h =
      let (c, first, rest) = >>=-eq-ok (validate_item d db i) _ h in
      let exact = checked_cents-exact i.amount c (validate_item-cents d db i c first) in
      let ih = invoice_total-asked items (tally i c acc) acc' rest in
      elim (Bool-cases (i.invoice_id == k)) [
        | inl same ↦ ground (
          arith,
          ih,
          plus-cents i.amount (stored_cents i.amount) (asked_of_invoice k items) exact,
        )
        | inr other ↦ ground (arith, ih)
      ]

  pub transaction_total-asked :
      (items : List AllocationInput) (acc acc' : Requested)
      → validate_items d db items acc ≡ ok acc'
      → transaction_total k items ≡ finite (pos (asked_of_transaction k items * units_per_cent))
  unfolding validate_items transaction_total
  transaction_total-asked [] acc acc' h = refl
  transaction_total-asked (i ∷ items) acc acc' h =
      let (c, first, rest) = >>=-eq-ok (validate_item d db i) _ h in
      let exact = checked_cents-exact i.amount c (validate_item-cents d db i c first) in
      let ih = transaction_total-asked items (tally i c acc) acc' rest in
      elim (Bool-cases (i.transaction_id == k)) [
        | inl same ↦ ground (
          arith,
          ih,
          plus-cents i.amount (stored_cents i.amount) (asked_of_transaction k items) exact,
        )
        | inr other ↦ ground (arith, ih)
      ]

-- A member of the batch has an open amount, which its total meets.
pub member-met :
    (f : ℕ → Result ℤ) (total : ℕ → Total) (k : ℕ) (ks : List ℕ) (amounts : Dict ℤ)
    → member_amounts f ks ≡ ok amounts
    → all (λ e. equals (total e.0) e.1) amounts ≡ true
    → contains k ks ≡ true
    → (o : ℤ) × (f k ≡ ok o) × (equals (total k) o ≡ true)
unfolding member_amounts
member-met f total k [] amounts h met isin = cc
member-met f total k (j ∷ ks) amounts h met isin =
    let (a, first, h₁) = >>=-eq-ok (f j) _ h in
    let (rest, second, h₂) = >>=-eq-ok (member_amounts f ks) _ h₁ in
    elim (Bool-cases (k == j)) [
      | inl same ↦ (a, ground arith, ground arith)
      | inr other ↦ member-met f total k ks rest second (ground arith) (ground arith)
    ]

-- A total in whole cents that meets what is open uses it up.
pub equals-uses_up :
    (asked total allocated : ℕ)
    → equals (finite (pos (asked * units_per_cent))) (sub_ℕ total allocated) ≡ true
    → allocated + asked ≡ total
equals-uses_up asked total allocated h = ground arith
