-- ===== src/Reconciliation/Services/Capacity.antt =====
-- What the tests at the end of `_validate_allocations` establish: no total asked for exceeds what is
-- open.
use finance_reconciliation.Prelude.{
  ℕ, ◌+◌, ◌≤◌, ◌≡◌, some, [], ◌∷◌, arith, Dict, lookup, total_of, ◌==◌, Bool-cases, Option-cases,
  inl, inr,
}
use finance_reconciliation.Prelude.Int.{ℤ, pos, ◌≤ℤ◌}
use finance_reconciliation.Ledger.{Invoice, MoneyTransaction}
use finance_reconciliation.Reconciliation.Result.{Failure, Result, ok, ◌>>=◌, >>=-eq-ok}
use finance_reconciliation.Reconciliation.Database.{Database, find_invoice, find_transaction}
use finance_reconciliation.Reconciliation.Queries.{invoice_allocated, transaction_allocated}
use finance_reconciliation.Reconciliation.Services.Validation.{
  open_amounts, check_capacity, current_invoice_open, current_transaction_open,
}

-- A key that is asked for has an amount that covers it.
check_capacity-covers :
    (e : Failure) (k v : ℕ) (asked : Dict ℕ) (current : Dict ℤ)
    → check_capacity e asked current ≡ ok tt
    → lookup k asked ≡ some v
    → (o : ℤ) × (lookup k current ≡ some o) × (pos v ≤ℤ o)
unfolding check_capacity
check_capacity-covers e k v [] current h found = cc
check_capacity-covers e k v ((j, w) ∷ asked) current h found =
    elim (Option-cases (lookup j current)) [
      | inl missing ↦ absurd (ground arith)
      | inr (o, e₁) ↦ elim (Bool-cases (k == j)) [
        | inl same ↦ (o, ground arith, ground arith)
        | inr other ↦ check_capacity-covers e k v asked current (ground arith) (ground arith)
      ]
    ]

open_amounts-lookup :
    (f : ℕ → Result ℤ) (k : ℕ) (o : ℤ) (asked : Dict ℕ) (current : Dict ℤ)
    → open_amounts f asked ≡ ok current
    → lookup k current ≡ some o
    → f k ≡ ok o
unfolding open_amounts
open_amounts-lookup f k o [] current h found = ground arith
open_amounts-lookup f k o ((j, w) ∷ asked) current h found =
    let (a, first, h₁) =
      >>=-eq-ok (f j) (λ a. open_amounts f asked >>= λ rest. ok ((j, a) ∷ rest)) h in
    let (rest, second, h₂) = >>=-eq-ok (open_amounts f asked) (λ rest. ok ((j, a) ∷ rest)) h₁ in
    elim (Bool-cases (k == j)) [
      | inl same ↦ ground arith
      | inr other ↦ open_amounts-lookup f k o asked rest second (ground arith)
    ]

-- A total that passes the test fits into what is left of the invoice or the payment.
pub fits_invoice :
    (e : Failure) (k : ℕ) (i : Invoice) (db : Database) (asked : Dict ℕ) (current : Dict ℤ)
    → find_invoice k db ≡ some i
    → invoice_allocated k db ≤ i.total_amount
    → open_amounts (current_invoice_open db) asked ≡ ok current
    → check_capacity e asked current ≡ ok tt
    → invoice_allocated k db + total_of k asked ≤ i.total_amount
unfolding current_invoice_open
fits_invoice e k i db asked current found fits opens checked =
    elim (Option-cases (lookup k asked)) [
      | inl unasked ↦ ground arith
      | inr (v, e₁) ↦
          let (o, e₂, covers) = check_capacity-covers e k v asked current checked e₁ in
          ground (arith, open_amounts-lookup (current_invoice_open db) k o asked current opens e₂)
    ]

pub fits_transaction :
    (e : Failure) (k : ℕ) (m : MoneyTransaction) (db : Database) (asked : Dict ℕ) (current : Dict ℤ)
    → find_transaction k db ≡ some m
    → transaction_allocated k db ≤ m.amount
    → open_amounts (current_transaction_open db) asked ≡ ok current
    → check_capacity e asked current ≡ ok tt
    → transaction_allocated k db + total_of k asked ≤ m.amount
unfolding current_transaction_open
fits_transaction e k m db asked current found fits opens checked =
    elim (Option-cases (lookup k asked)) [
      | inl unasked ↦ ground arith
      | inr (v, e₁) ↦
          let (o, e₂, covers) = check_capacity-covers e k v asked current checked e₁ in
          ground
            (arith, open_amounts-lookup (current_transaction_open db) k o asked current opens e₂)
    ]
