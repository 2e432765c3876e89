-- ===== src/Reconciliation/Services/Reverse.antt =====
-- `reverse_reconciliation`: it gives back what the reconciliation took, once.
use finance_reconciliation.Prelude.{
  ℕ, ◌+◌, ◌≡◌, true, false, ◌&&◌, not, Option, some, List, [], ◌∷◌, ◌++◌, arith, sum_where, any,
  find, ◌==◌,
}
use finance_reconciliation.Prelude.Text.{Text}
use finance_reconciliation.Accounts.Roles.{Actor, is_finance_actor}
use finance_reconciliation.Reconciliation.Result.{
  ok, already_reversed, permission_denied, reason_empty, does_not_exist, guard, raise_if, >>=-eq-ok,
  >>-eq-ok, raise_if-eq-ok, or_raise, or_raise-eq-ok,
}
use finance_reconciliation.Reconciliation.Database.{
  Allocation, Reversal, Reconciliation, Database, find_reconciliation, is_active,
}
use finance_reconciliation.Reconciliation.Queries.{invoice_allocated, transaction_allocated}
use finance_reconciliation.Reconciliation.Services.Operations.{
  is_blank, reversal_of, write_reversal, reverse_reconciliation,
}

-- A reversal that returns has found an original that was not reversed, and writes one reversal.
pub record Reversed (actor : Actor) (r : ℕ) (reason : Option Text) (db db' : Database)
    : Type 0 where
  pub original : Reconciliation
  pub found : find_reconciliation r db ≡ some original
  pub fresh : any (λ v. v.original == original.id) db.reversals ≡ false
  pub written : db' ≡ write_reversal actor original.id reason db

pub find-id :
    (r : ℕ) (rows : List Reconciliation) (row : Reconciliation)
    → find (λ x. x.id == r) rows ≡ some row
    → row.id ≡ r
find-id r [] row h = cc
find-id r (x ∷ rows) row h = ground (arith, find-id r rows row)

pub reverse_reconciliation-Reversed :
    (actor : Actor) (r : ℕ) (reason : Option Text) (db db' : Database)
    → reverse_reconciliation actor r reason db ≡ ok db'
    → Reversed actor r reason db db'
unfolding reverse_reconciliation
reverse_reconciliation-Reversed actor r reason db db' h =
    let (allowed, h₁) =
      >>-eq-ok (guard (is_finance_actor actor db.directory) permission_denied) _ h in
    let (worded, h₂) = >>-eq-ok (raise_if (is_blank reason) reason_empty) _ h₁ in
    let (original, found, h₃) =
      >>=-eq-ok (or_raise (find_reconciliation r db) does_not_exist) _ h₂ in
    let (once, h₄) = >>-eq-ok (raise_if _ already_reversed) _ h₃ in
    record {
      original = original;
      found = or_raise-eq-ok _ _ found;
      fresh = raise_if-eq-ok _ _ once;
      written = cc h₄;
    }

pub is_active-append :
    (vs : List Reversal) (v : Reversal) (r : ℕ)
    → is_active (vs ++ v ∷ []) r ≡ (is_active vs r && not (v.original == r))
unfolding is_active
is_active-append [] v r = ground arith
is_active-append (w ∷ vs) v r = ground (arith, is_active-append vs v r)

-- The two sums differ in the column that they group by.
module _ (key : Allocation → ℕ) (k : ℕ) where
  abbrev pub active_sum : List Reversal → List Allocation → ℕ
  active_sum vs = sum_where (λ a. key a == k && is_active vs a.reconciliation) (λ a. a.amount)

  abbrev pub share_of : ℕ → List Allocation → ℕ
  share_of r = sum_where (λ a. key a == k && a.reconciliation == r) (λ a. a.amount)

  -- A reversal takes the share of its reconciliation out of the sum.
  pub active_sum-reversal :
      (vs : List Reversal) (v : Reversal) (rows : List Allocation)
      → is_active vs v.original ≡ true
      → active_sum (vs ++ v ∷ []) rows + share_of v.original rows ≡ active_sum vs rows
  active_sum-reversal vs v [] active = omega arith
  active_sum-reversal vs v (a ∷ rows) active =
      ground (arith, active_sum-reversal vs v rows active, is_active-append vs v a.reconciliation)

pub any-eq-not_active :
    (vs : List Reversal) (r : ℕ) → any (λ v. v.original == r) vs ≡ false → is_active vs r ≡ true
unfolding is_active
any-eq-not_active vs r h = rw h

-- What a reversal that returns takes off the allocated amounts of every invoice and every payment is
-- the share that its reconciliation had in them.
pub reverse_reconciliation-gives_back :
    (actor : Actor) (r : ℕ) (reason : Option Text) (db db' : Database)
    → reverse_reconciliation actor r reason db ≡ ok db'
    → (k : ℕ)
    → (invoice_allocated k db' + share_of (λ a. a.invoice) k r db.allocations
        ≡ invoice_allocated k db)
      × (transaction_allocated k db' + share_of (λ a. a.transaction) k r db.allocations
          ≡ transaction_allocated k db)
unfolding invoice_allocated transaction_allocated
reverse_reconciliation-gives_back actor r reason db db' h k =
    let d = reverse_reconciliation-Reversed actor r reason db db' h in
    let same = find-id r db.reconciliations d.original d.found in
    let v = reversal_of actor d.original.id reason in
    let active = any-eq-not_active db.reversals d.original.id d.fresh in
    rw (d.written, ← same)
      (
        active_sum-reversal (λ a. a.invoice) k db.reversals v db.allocations active,
        active_sum-reversal (λ a. a.transaction) k db.reversals v db.allocations active,
      )
