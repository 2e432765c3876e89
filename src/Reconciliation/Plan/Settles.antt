-- ===== src/Reconciliation/Plan/Settles.antt =====
-- The plan is found within the turns allowed, and uses up the side that has less.
use finance_reconciliation.Prelude.{
  ℕ, zero, suc, ◌+◌, ◌*◌, ◌≡◌, ◌≤◌, ◌<◌, refl, ap, min, true, false, Option, some, List, [], ◌∷◌,
  map, length, arith, inl, inr, Bool-cases, ◌==◌, if◌then◌else◌,
}
use finance_reconciliation.Reconciliation.Plan.Loop.{
  SettlementItem, AllocationRow, Remaining, remaining, finished, moved, allocated, taken, turn,
  append_row, turns, allocation_plan,
}

-- The turns that the entries are worth.
abbrev worth : List Remaining → ℕ
worth [] = 0
worth (r ∷ rs) = (if r.left == 0 then 1 else 2) + worth rs

abbrev pub total_left : List Remaining → ℕ
total_left [] = 0
total_left (r ∷ rs) = r.left + total_left rs

-- What is left of a key, and what the rows allocate to it.
abbrev pub left_of : ℕ → List Remaining → ℕ
left_of k [] = 0
left_of k (r ∷ rs) = (if r.key == k then r.left else 0) + left_of k rs

abbrev pub to_invoice : ℕ → List AllocationRow → ℕ
to_invoice k [] = 0
to_invoice k (r ∷ rows) = (if r.invoice_id == k then r.amount else 0) + to_invoice k rows

abbrev pub to_transaction : ℕ → List AllocationRow → ℕ
to_transaction k [] = 0
to_transaction k (r ∷ rows) =
    (if r.transaction_id == k then r.amount else 0) + to_transaction k rows

left_of-total_left : (k : ℕ) (rs : List Remaining) → left_of k rs ≤ total_left rs
left_of-total_left k [] = omega arith
left_of-total_left k (r ∷ rs) = ground (arith, left_of-total_left k rs)

-- What the turns lead to.
pub record Settles (is ts : List Remaining) (out : Option (List AllocationRow)) : Type 0 where
  pub rows : List AllocationRow
  pub found : out ≡ some rows
  pub invoices_fit : (k : ℕ) → to_invoice k rows ≤ left_of k is
  pub transactions_fit : (k : ℕ) → to_transaction k rows ≤ left_of k ts
  pub invoices_used : total_left is ≤ total_left ts → (k : ℕ) → to_invoice k rows ≡ left_of k is
  pub transactions_used :
      total_left ts ≤ total_left is → (k : ℕ) → to_transaction k rows ≡ left_of k ts

no_invoices : (ts : List Remaining) → Settles [] ts (some [])
no_invoices ts = record {
  rows = [];
  found = refl;
  invoices_fit = λ k. omega arith;
  transactions_fit = λ k. omega arith;
  invoices_used = λ less k. refl;
  transactions_used = λ less k. let none_left = left_of-total_left k ts in omega (arith, less);
}

no_transactions : (is : List Remaining) → Settles is [] (some [])
no_transactions is = record {
  rows = [];
  found = refl;
  invoices_fit = λ k. omega arith;
  transactions_fit = λ k. omega arith;
  invoices_used = λ less k. let none_left = left_of-total_left k is in omega (arith, less);
  transactions_used = λ less k. refl;
}

skip_invoice :
    (i : Remaining) (is ts : List Remaining) (out : Option (List AllocationRow))
    → (i.left == 0) ≡ true
    → Settles is ts out
    → Settles (i ∷ is) ts out
skip_invoice i is ts out used s = record {
  rows = s.rows;
  found = s.found;
  invoices_fit = λ k. let fit = s.invoices_fit k in ground arith;
  transactions_fit = s.transactions_fit;
  invoices_used = λ less k. let same = s.invoices_used (ground arith) k in ground arith;
  transactions_used = λ less. s.transactions_used (ground arith);
}

skip_transaction :
    (t : Remaining) (is ts : List Remaining) (out : Option (List AllocationRow))
    → (t.left == 0) ≡ true
    → Settles is ts out
    → Settles is (t ∷ ts) out
skip_transaction t is ts out used s = record {
  rows = s.rows;
  found = s.found;
  invoices_fit = s.invoices_fit;
  transactions_fit = λ k. let fit = s.transactions_fit k in ground arith;
  invoices_used = λ less. s.invoices_used (ground arith);
  transactions_used = λ less k. let same = s.transactions_used (ground arith) k in ground arith;
}

add_row :
    (i t : Remaining) (is ts : List Remaining) (out : Option (List AllocationRow)) (amount : ℕ)
    → amount ≤ i.left
    → amount ≤ t.left
    → Settles (taken i amount ∷ is) (taken t amount ∷ ts) out
    → Settles
        (i ∷ is)
        (t ∷ ts)
        (append_row (record { invoice_id = i.key; transaction_id = t.key; amount = amount }) out)
add_row i t is ts out amount fits fits' s = record {
  rows = record { invoice_id = i.key; transaction_id = t.key; amount = amount } ∷ s.rows;
  found = ap (append_row _) s.found;
  invoices_fit = λ k. let fit = s.invoices_fit k in ground arith;
  transactions_fit = λ k. let fit = s.transactions_fit k in ground arith;
  invoices_used = λ less k. let same = s.invoices_used (ground arith) k in ground arith;
  transactions_used = λ less k. let same = s.transactions_used (ground arith) k in ground arith;
}

turn-no_invoices : (ts : List Remaining) → turn [] ts ≡ finished
unfolding turn
turn-no_invoices ts = refl

turn-no_transactions : (i : Remaining) (is : List Remaining) → turn (i ∷ is) [] ≡ finished
unfolding turn
turn-no_transactions i is = refl

-- The turns of the loop that do not end it.
module _ (i t : Remaining) (is ts : List Remaining) where
  turn-used_invoice : (i.left == 0) ≡ true → turn (i ∷ is) (t ∷ ts) ≡ moved is (t ∷ ts)
  unfolding turn
  turn-used_invoice used = rw used

  turn-used_transaction :
      (i.left == 0) ≡ false → (t.left == 0) ≡ true → turn (i ∷ is) (t ∷ ts) ≡ moved (i ∷ is) ts
  unfolding turn
  turn-used_transaction left_i used = rw (left_i, used)

  turn-allocated :
      (i.left == 0) ≡ false
      → (t.left == 0) ≡ false
      → turn (i ∷ is) (t ∷ ts)
        ≡ allocated
            (record { invoice_id = i.key; transaction_id = t.key; amount = min i.left t.left })
            (taken i (min i.left t.left) ∷ is)
            (taken t (min i.left t.left) ∷ ts)
  unfolding turn
  turn-allocated left_i left_t = rw (left_i, left_t)

turns-Settles :
    (fuel : ℕ) (is ts : List Remaining)
    → worth is + worth ts < fuel
    → Settles is ts (turns fuel is ts)
unfolding turns
turns-Settles zero is ts enough = absurd (omega (arith, enough))
turns-Settles (suc fuel) [] ts enough = rw (turn-no_invoices ts) (no_invoices ts)
turns-Settles (suc fuel) (i ∷ is) [] enough =
    rw (turn-no_transactions i is) (no_transactions (i ∷ is))
turns-Settles (suc fuel) (i ∷ is) (t ∷ ts) enough = elim (Bool-cases (i.left == 0)) [
  | inl used ↦
      rw (turn-used_invoice i t is ts used)
        (skip_invoice i is (t ∷ ts) _ used (turns-Settles fuel is (t ∷ ts) (ground arith)))
  | inr left_i ↦ elim (Bool-cases (t.left == 0)) [
    | inl used ↦
        rw (turn-used_transaction i t is ts left_i used)
          (skip_transaction t (i ∷ is) ts _ used (turns-Settles fuel (i ∷ is) ts (ground arith)))
    | inr left_t ↦ rw (turn-allocated i t is ts left_i left_t) (
        add_row i t is ts _ (min i.left t.left) (omega arith) (omega arith) (
          turns-Settles fuel (taken i (min i.left t.left) ∷ is) (taken t (min i.left t.left) ∷ ts)
            (ground arith)))
  ]
]

worth-length : (items : List SettlementItem) → worth (map remaining items) ≤ 2 * length items
worth-length [] = omega arith
worth-length (i ∷ items) = let rest = worth-length items in ground arith

-- The loop of `allocation_plan` ends within two turns for each item. Its rows allocate to no record
-- more than was open of it (nothing to an occupied one), and use up every invoice when the payments
-- cover the invoices, and every payment when the invoices cover the payments.
pub allocation_plan-Settles :
    (invoices transactions : List SettlementItem)
    → Settles
        (map remaining invoices)
        (map remaining transactions)
        (allocation_plan invoices transactions)
unfolding allocation_plan
allocation_plan-Settles invoices transactions =
    turns-Settles _ (map remaining invoices) (map remaining transactions)
      (omega (arith, worth-length invoices, worth-length transactions))
