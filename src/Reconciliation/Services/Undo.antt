-- ===== src/Reconciliation/Services/Undo.antt =====
-- A reconciliation can be reversed as soon as it has been created, and then every open amount is
-- what it was.
use finance_reconciliation.Prelude.{
  ℕ, ◌≡◌, refl, true, false, Option, none, some, List, [], ◌∷◌, ◌++◌, arith, any, find, ◌==◌,
}
use finance_reconciliation.Prelude.Text.{Text}
use finance_reconciliation.Accounts.Roles.{Actor, is_finance_actor}
use finance_reconciliation.Reconciliation.Result.{ok}
use finance_reconciliation.Reconciliation.Database.{
  Direction, Mode, Reconciliation, Reversal, Database, find_reconciliation, is_active,
}
use finance_reconciliation.Reconciliation.Queries.{
  invoice_allocated, transaction_allocated, invoice_open_amount, transaction_open_amount,
}
use finance_reconciliation.Reconciliation.Services.Validation.{Request}
use finance_reconciliation.Reconciliation.Services.Operations.{
  is_blank, new_row, write_reversal, write_reconciliation, create_reconciliation,
  reverse_reconciliation,
}
use finance_reconciliation.Reconciliation.Services.Accepted.{create_reconciliation-Created}
use finance_reconciliation.Reconciliation.Services.Balance.{
  IsConsistent, invoice_allocated-write, transaction_allocated-write,
}
use finance_reconciliation.Reconciliation.Services.Reverse.{reverse_reconciliation-gives_back}
use finance_reconciliation.Reconciliation.Services.RoundTrip.{
  share_of-new_invoice, share_of-new_transaction,
}

find-new :
    (r : ℕ) (rows : List Reconciliation) (row : Reconciliation)
    → find (λ x. x.id == r) rows ≡ none
    → row.id ≡ r
    → find (λ x. x.id == r) (rows ++ row ∷ []) ≡ some row
find-new r [] row h e = ground arith
find-new r (x ∷ rows) row h e = ground (arith, find-new r rows row)

any-of_active :
    (vs : List Reversal) (r : ℕ) → is_active vs r ≡ true → any (λ v. v.original == r) vs ≡ false
unfolding is_active
any-of_active vs r h = ground arith

module _ (request : Request) (direction : Direction) (mode : Mode) (fresh : ℕ) (db : Database) where
  -- The reversal of the row just written goes through.
  write_reconciliation-reversible :
      (actor : Actor) (reason : Option Text)
      → is_active db.reversals fresh ≡ true
      → find_reconciliation fresh db ≡ none
      → is_finance_actor actor db.directory ≡ true
      → is_blank reason ≡ false
      → reverse_reconciliation actor fresh reason
          (write_reconciliation request direction mode fresh db)
        ≡ ok (
            write_reversal actor fresh reason
              (write_reconciliation request direction mode fresh db))
  unfolding write_reconciliation reverse_reconciliation
  write_reconciliation-reversible actor reason active unused allowed worded = ground (
    arith,
    find-new fresh db.reconciliations (new_row request direction mode fresh) unused refl,
    any-of_active db.reversals fresh active,
  )

  -- Reversing what was just written leaves the allocated amounts of before.
  reversal-restores :
      (db₂ : Database) (actor : Actor) (reason : Option Text)
      → IsConsistent db
      → find_reconciliation fresh db ≡ none
      → reverse_reconciliation actor fresh reason
          (write_reconciliation request direction mode fresh db)
        ≡ ok db₂
      → (k : ℕ)
      → (invoice_allocated k db₂ ≡ invoice_allocated k db)
        × (transaction_allocated k db₂ ≡ transaction_allocated k db)
  unfolding write_reconciliation
  reversal-restores db₂ actor reason c unused h k =
      let active = c.reversals_known fresh unused in
      let new = c.allocations_known fresh unused in
      let back =
        reverse_reconciliation-gives_back actor fresh reason
          (write_reconciliation request direction mode fresh db) db₂ h k in
      (
        omega (
          arith,
          back.0,
          invoice_allocated-write request direction mode fresh db k active,
          share_of-new_invoice k fresh db.allocations request.allocations new,
        ),
        omega (
          arith,
          back.1,
          transaction_allocated-write request direction mode fresh db k active,
          share_of-new_transaction k fresh db.allocations request.allocations new,
        ),
      )

-- The open amounts read the rows of invoices and payments, and the allocated amounts.
open_amounts_agree :
    (k : ℕ) (db db₂ : Database)
    → db₂.invoices ≡ db.invoices
    → db₂.transactions ≡ db.transactions
    → invoice_allocated k db₂ ≡ invoice_allocated k db
    → transaction_allocated k db₂ ≡ transaction_allocated k db
    → (invoice_open_amount k db₂ ≡ invoice_open_amount k db)
      × (transaction_open_amount k db₂ ≡ transaction_open_amount k db)
unfolding invoice_open_amount transaction_open_amount
open_amounts_agree k db db₂ i t a b = (simp (i, a), simp (t, b))

-- After a call of `create_reconciliation` that returned, from consistent tables and with a key that
-- no reconciliation had, finance staff can reverse the new reconciliation with a reason, and then
-- every invoice and every payment has the open amount that it had before the two calls.
pub create_then_reverse :
    (request : Request) (actor : Actor) (fresh : ℕ) (reason : Option Text) (db db₁ : Database)
    → IsConsistent db
    → find_reconciliation fresh db ≡ none
    → create_reconciliation request fresh db ≡ ok db₁
    → is_finance_actor actor db.directory ≡ true
    → is_blank reason ≡ false
    → (db₂ : Database) × (reverse_reconciliation actor fresh reason db₁ ≡ ok db₂)
      × ((k : ℕ)
          → (invoice_open_amount k db₂ ≡ invoice_open_amount k db)
            × (transaction_open_amount k db₂ ≡ transaction_open_amount k db))
unfolding write_reconciliation
create_then_reverse request actor fresh reason db db₁ c unused made allowed worded =
    let d = create_reconciliation-Created request fresh db db₁ made in
    let goes =
      write_reconciliation-reversible request d.direction d.mode fresh db actor reason
        (c.reversals_known fresh unused) unused allowed worded in
    (
      write_reversal actor fresh reason (write_reconciliation request d.direction d.mode fresh db),
      rw d.written goes,
      λ k.
          let same =
            reversal-restores request d.direction d.mode fresh db _ actor reason c unused goes k in
          open_amounts_agree k db _ refl refl same.0 same.1,
    )
