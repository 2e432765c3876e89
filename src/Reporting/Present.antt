-- ===== src/Reporting/Present.antt =====
-- The reports of apps/reporting/queries.py against the amounts that the reconciliation services compute
-- (apps/reconciliation/queries.py): at present they are the same, and a payment is reported by its
-- local date.
use finance_reconciliation.Prelude.{
  ℕ, ◌<◌, ◌≡◌, refl, ap, ◌∙◌, Bool, true, false, none, some, List, [], ◌∷◌, map, find, sum_where,
  arith, ltb, leb, ◌==◌, ◌&&◌, if◌then◌else◌,
}
use finance_reconciliation.Prelude.Int.{ℤ, sub_ℕ}
use finance_reconciliation.Ledger.{Invoice, local_date}
use finance_reconciliation.Reconciliation.Result.{ok, ok-injective}
use finance_reconciliation.Reconciliation.Database.{
  Allocation, Reversal, Database, find_invoice, is_active,
}
use finance_reconciliation.Reconciliation.Queries.{invoice_allocated, invoice_open_amount}
use finance_reconciliation.Reporting.Amounts.{
  DatedAllocation, DatedInvoice, Records, cutoff, historically_valid, is_unreversed,
  allocated_to_invoice, invoice_with_open, current_open_amount,
}

-- The join of an allocation with its reconciliation and the reversal of that, given when each was created.
abbrev pub joined : List Reversal → (ℕ → ℕ) → (ℕ → ℕ) → Allocation → DatedAllocation
joined reversals created reversed a = record {
  reconciliation = a.reconciliation;
  invoice = a.invoice;
  transaction = a.transaction;
  amount = a.amount;
  created_at = created a.reconciliation;
  reversed_at =
      if is_active reversals a.reconciliation then none else some (reversed a.reconciliation);
}

historically_valid-joined :
    (reversals : List Reversal) (created reversed : ℕ → ℕ) (at : ℕ) (a : Allocation)
    → created a.reconciliation < at
    → reversed a.reconciliation < at
    → historically_valid at (joined reversals created reversed a)
      ≡ is_active reversals a.reconciliation
unfolding historically_valid
historically_valid-joined reversals created reversed at a c r =
    go (is_active reversals a.reconciliation) refl
  where
    go :
        (active : Bool)
        → is_active reversals a.reconciliation ≡ active
        → historically_valid at (joined reversals created reversed a)
          ≡ is_active reversals a.reconciliation
    go true e = ground (arith, e)
    go false e = ground (arith, e)

allocated-joined :
    (reversals : List Reversal) (created reversed : ℕ → ℕ) (valid : DatedAllocation → Bool) (k : ℕ)
    (allocations : List Allocation)
    → ((a : Allocation)
        → valid (joined reversals created reversed a) ≡ is_active reversals a.reconciliation)
    → allocated_to_invoice valid (map (joined reversals created reversed) allocations) k
      ≡ sum_where
          (λ a. a.invoice == k && is_active reversals a.reconciliation)
          (λ a. a.amount)
          allocations
allocated-joined reversals created reversed valid k [] same = refl
allocated-joined reversals created reversed valid k (a ∷ allocations) same =
    ground (arith, same a, allocated-joined reversals created reversed valid k allocations same)

find-id :
    (k : ℕ) (invoices : List Invoice) (i : Invoice)
    → find (λ i. i.id == k) invoices ≡ some i
    → i.id ≡ k
find-id k [] i h = cc
find-id k (j ∷ invoices) i h = ground (arith, h, find-id k invoices i)

is_unreversed-joined :
    (reversals : List Reversal) (created reversed : ℕ → ℕ) (a : Allocation)
    → is_unreversed (joined reversals created reversed a) ≡ is_active reversals a.reconciliation
is_unreversed-joined reversals created reversed a = go (is_active reversals a.reconciliation)
  where
    go :
        (active : Bool)
        → elim (if active then none else some (reversed a.reconciliation)) [
          | none ↦ true
          | some t ↦ false
        ]
          ≡ active
    go true = refl
    go false = refl

-- For a day that ends after every reconciliation and every reversal was created, the open amount of an
-- invoice in the reports, as of the day and at present, is the one that the services compute.
pub invoice_with_open-present :
    (db : Database) (created reversed : ℕ → ℕ) (records : Records) (as_of k : ℕ) (i : DatedInvoice)
    (z : ℤ)
    → records.allocations ≡ map (joined db.reversals created reversed) db.allocations
    → ((r : ℕ) → created r < cutoff as_of)
    → ((r : ℕ) → reversed r < cutoff as_of)
    → find_invoice k db ≡ some i.invoice
    → invoice_open_amount k db ≡ ok z
    → ((invoice_with_open records as_of i).open_amount ≡ z) × (current_open_amount records i ≡ z)
unfolding invoice_with_open current_open_amount invoice_open_amount invoice_allocated
invoice_with_open-present db created reversed records as_of k i z j c r found h =
    let same : i.invoice.id ≡ k = find-id k db.invoices i.invoice found in
    let run = rw found at h in
    let given : sub_ℕ i.invoice.total_amount (invoice_allocated k db) ≡ z = ok-injective run in
    let reported : (valid : DatedAllocation → Bool)
        → ((a : Allocation)
            → valid (joined db.reversals created reversed a)
              ≡ is_active db.reversals a.reconciliation)
        → sub_ℕ i.invoice.total_amount (allocated_to_invoice valid records.allocations i.invoice.id)
          ≡ z =
      λ valid agrees.
        ap
          (λ (rows : List DatedAllocation).
            sub_ℕ i.invoice.total_amount (allocated_to_invoice valid rows i.invoice.id))
          j
        ∙ ap
            (λ (n : ℕ). sub_ℕ i.invoice.total_amount (
              allocated_to_invoice valid (map (joined db.reversals created reversed) db.allocations)
                n))
            same
        ∙ ap (sub_ℕ i.invoice.total_amount)
            (allocated-joined db.reversals created reversed valid k db.allocations agrees)
        ∙ given in
    (
      reported (historically_valid (cutoff as_of)) (λ a.
          historically_valid-joined db.reversals created reversed (cutoff as_of) a
            (c a.reconciliation) (r a.reconciliation)),
      reported is_unreversed (is_unreversed-joined db.reversals created reversed),
    )

-- A payment occurs before the cutoff of a day exactly when its local date is that day or an earlier one.
pub cutoff-local_date : (t as_of : ℕ) → ltb t (cutoff as_of) ≡ leb (local_date t) as_of
unfolding cutoff local_date
cutoff-local_date t as_of = ground arith
