-- ===== src/Reconciliation/Services/RoundTrip.antt =====
-- A reconciliation that is created and then reversed, and one that is reversed twice.
use finance_reconciliation.Prelude.{
  ℕ, ◌≡◌, refl, true, false, Option, none, some, List, [], ◌∷◌, ◌++◌, arith, any, ◌==◌, map,
  Bool-cases, inl, inr,
}
use finance_reconciliation.Prelude.Text.{Text}
use finance_reconciliation.Accounts.Roles.{Actor, is_finance_actor}
use finance_reconciliation.Reconciliation.Result.{ok, err, already_reversed}
use finance_reconciliation.Reconciliation.Database.{
  Allocation, Reversal, Reconciliation, Database, find_reconciliation, is_active,
}
use finance_reconciliation.Reconciliation.Services.Validation.{AllocationInput}
use finance_reconciliation.Reconciliation.Services.Operations.{
  allocation_row, is_blank, reversal_of, reverse_reconciliation,
}
use finance_reconciliation.Reconciliation.Services.Totals.{asked_of_invoice, asked_of_transaction}
use finance_reconciliation.Reconciliation.Services.Balance.{IsConsistent}
use finance_reconciliation.Reconciliation.Services.Reverse.{
  reverse_reconciliation-Reversed, reverse_reconciliation-gives_back, is_active-append, share_of,
  find-id,
}

-- A key that no reconciliation has is not the one that has been reversed.
still_active :
    (s r : ℕ) (reason : Option Text) (actor : Actor) (db : Database) (original : Reconciliation)
    → original.id ≡ r
    → find_reconciliation r db ≡ some original
    → IsConsistent db
    → find_reconciliation s db ≡ none
    → is_active (db.reversals ++ reversal_of actor original.id reason ∷ []) s ≡ true
still_active s r reason actor db original e found c absent = elim (Bool-cases (original.id == s)) [
  | inl same ↦ absurd (ground arith)
  | inr differs ↦ rw is_active-append (rw (c.reversals_known s absent) (ground arith))
]

-- A reversal that returns leaves consistent tables.
pub reverse_reconciliation-IsConsistent :
    (actor : Actor) (r : ℕ) (reason : Option Text) (db db' : Database)
    → IsConsistent db
    → reverse_reconciliation actor r reason db ≡ ok db'
    → IsConsistent db'
reverse_reconciliation-IsConsistent actor r reason db db' c h =
    let d = reverse_reconciliation-Reversed actor r reason db db' h in
    let back = reverse_reconciliation-gives_back actor r reason db db' h in
    record {
      invoices_fit =
          λ k i found. omega (arith, (back k).0, c.invoices_fit k i (rw d.written at found));
      transactions_fit =
          λ k m found. omega (arith, (back k).1, c.transactions_fit k m (rw d.written at found));
      reversals_known = λ s absent. rw d.written (
          still_active s r reason actor db d.original
            (find-id r db.reconciliations d.original d.found) d.found c (rw d.written at absent));
      allocations_known = λ s absent. rw d.written (c.allocations_known s (rw d.written at absent));
    }

any-append_self :
    (vs : List Reversal) (v : Reversal) → any (λ w. w.original == v.original) (vs ++ v ∷ []) ≡ true
any-append_self [] v = ground arith
any-append_self (w ∷ vs) v = ground (arith, any-append_self vs v)

-- After a reversal that returned, any other of the same reconciliation, by finance staff and with a
-- reason, is refused as already reversed.
pub reverse_reconciliation-once :
    (actor other : Actor) (r : ℕ) (reason again : Option Text) (db db' : Database)
    → reverse_reconciliation actor r reason db ≡ ok db'
    → is_finance_actor other db.directory ≡ true
    → is_blank again ≡ false
    → reverse_reconciliation other r again db' ≡ err already_reversed
unfolding reverse_reconciliation
reverse_reconciliation-once actor other r reason again db db' h allowed worded =
    let d = reverse_reconciliation-Reversed actor r reason db db' h in
    rw d.written (
      ground
        (arith, d.found, any-append_self db.reversals (reversal_of actor d.original.id reason)))

-- The rows of a reconciliation that no row had before are those of its items.
pub share_of-new_invoice :
    (k r : ℕ) (rows : List Allocation) (items : List AllocationInput)
    → any (λ a. a.reconciliation == r) rows ≡ false
    → share_of (λ a. a.invoice) k r (rows ++ map (allocation_row r) items)
      ≡ asked_of_invoice k items
share_of-new_invoice k r [] [] h = refl
share_of-new_invoice k r [] (i ∷ items) h = ground (arith, share_of-new_invoice k r [] items h)
share_of-new_invoice k r (a ∷ rows) items h = ground (arith, share_of-new_invoice k r rows items)

pub share_of-new_transaction :
    (k r : ℕ) (rows : List Allocation) (items : List AllocationInput)
    → any (λ a. a.reconciliation == r) rows ≡ false
    → share_of (λ a. a.transaction) k r (rows ++ map (allocation_row r) items)
      ≡ asked_of_transaction k items
share_of-new_transaction k r [] [] h = refl
share_of-new_transaction k r [] (i ∷ items) h =
    ground (arith, share_of-new_transaction k r [] items h)
share_of-new_transaction k r (a ∷ rows) items h =
    ground (arith, share_of-new_transaction k r rows items)
