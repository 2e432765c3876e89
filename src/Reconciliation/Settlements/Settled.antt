-- ===== src/Reconciliation/Settlements/Settled.antt =====
-- Confirming a batch settles it: every member is used up, and the batch is closed.
use finance_reconciliation.Prelude.{
  ℕ, ◌+◌, ◌*◌, ◌≡◌, refl, ◌∙◌, true, none, some, List, [], ◌∷◌, arith, find, contains, ◌==◌,
  Option-cases, inl, inr, ap,
}
use finance_reconciliation.Prelude.Int.{ℤ, pos}
use finance_reconciliation.Accounts.Roles.{Actor}
use finance_reconciliation.Money.Amount.{units_per_cent}
use finance_reconciliation.Reconciliation.Result.{ok}
use finance_reconciliation.Reconciliation.Database.{
  SettlementBatch, Database, find_invoice, find_transaction, find_reconciliation,
}
use finance_reconciliation.Reconciliation.Queries.{
  invoice_allocated, transaction_allocated, invoice_open_amount, transaction_open_amount,
}
use finance_reconciliation.Reconciliation.Services.Validation.{AllocationInput}
use finance_reconciliation.Reconciliation.Services.Operations.{write_reconciliation}
use finance_reconciliation.Reconciliation.Services.Totals.{asked_of_invoice, asked_of_transaction}
use finance_reconciliation.Reconciliation.Services.Accepted.{Created, create_reconciliation-Created}
use finance_reconciliation.Reconciliation.Services.Balance.{
  IsConsistent, invoice_allocated-write, transaction_allocated-write,
}
use finance_reconciliation.Reconciliation.Settlements.Sums.{
  Total, finite, equals, invoice_total, transaction_total,
}
use finance_reconciliation.Reconciliation.Settlements.Confirm.{
  members, batch_request, confirm_settlement_batch,
}
use finance_reconciliation.Reconciliation.Settlements.Accepted.{
  BatchAccepted, confirm_settlement_batch-Confirmed,
}
use finance_reconciliation.Reconciliation.Settlements.Totals.{
  invoice_total-asked, transaction_total-asked, member-met, equals-uses_up,
}

pub find-id :
    (k : ℕ) (rows : List SettlementBatch) (row : SettlementBatch)
    → find (λ b. b.id == k) rows ≡ some row
    → row.id ≡ k
find-id k [] row h = cc
find-id k (x ∷ rows) row h = ground (arith, find-id k rows row)

-- An invoice on which rows for what was open have been written is used up.
invoice_uses_up :
    (k asked : ℕ) (t : Total) (o : ℤ) (db after : Database)
    → invoice_open_amount k db ≡ ok o
    → equals t o ≡ true
    → t ≡ finite (pos (asked * units_per_cent))
    → after.invoices ≡ db.invoices
    → invoice_allocated k after ≡ invoice_allocated k db + asked
    → invoice_open_amount k after ≡ ok (pos 0)
unfolding invoice_open_amount
invoice_uses_up k asked t o db after opened met total same more =
    elim (Option-cases (find_invoice k db)) [
      | inl missing ↦ absurd (ground arith)
      | inr (i, found) ↦
          let used = equals-uses_up asked i.total_amount (invoice_allocated k db) (ground arith) in
          simp same (ground (arith, used))
    ]

transaction_uses_up :
    (k asked : ℕ) (t : Total) (o : ℤ) (db after : Database)
    → transaction_open_amount k db ≡ ok o
    → equals t o ≡ true
    → t ≡ finite (pos (asked * units_per_cent))
    → after.transactions ≡ db.transactions
    → transaction_allocated k after ≡ transaction_allocated k db + asked
    → transaction_open_amount k after ≡ ok (pos 0)
unfolding transaction_open_amount
transaction_uses_up k asked t o db after opened met total same more =
    elim (Option-cases (find_transaction k db)) [
      | inl missing ↦ absurd (ground arith)
      | inr (m, found) ↦
          let used = equals-uses_up asked m.amount (transaction_allocated k db) (ground arith) in
          simp same (ground (arith, used))
    ]

module _ (actor : Actor) (b : SettlementBatch) (items : List AllocationInput) (fresh : ℕ)
    (db after : Database) (c : IsConsistent db) (unused : find_reconciliation fresh db ≡ none)
    (accepted : BatchAccepted b items db)
    (made : Created (batch_request actor b items) fresh db after) where
  invoice_settled :
      (k : ℕ)
      → contains k (members b.id db.batch_invoices) ≡ true
      → invoice_open_amount k after ≡ ok (pos 0)
  unfolding write_reconciliation
  invoice_settled k isin =
      let (o, opened, met) =
        member-met (λ k. invoice_open_amount k db) (λ k. invoice_total k items) k _
          accepted.invoice_open accepted.invoices_opened accepted.invoices_met isin in
      invoice_uses_up k (asked_of_invoice k items) (invoice_total k items) o db after opened met
        (invoice_total-asked made.direction db k items _ made.accepted.requested
          made.accepted.items)
        (ap (λ d. d.invoices) made.written)
        (ap (invoice_allocated k) made.written
          ∙ invoice_allocated-write (batch_request actor b items) made.direction made.mode fresh db
              k (c.reversals_known fresh unused))

  transaction_settled :
      (k : ℕ)
      → contains k (members b.id db.batch_transactions) ≡ true
      → transaction_open_amount k after ≡ ok (pos 0)
  unfolding write_reconciliation
  transaction_settled k isin =
      let (o, opened, met) =
        member-met (λ k. transaction_open_amount k db) (λ k. transaction_total k items) k _
          accepted.transaction_open accepted.transactions_opened accepted.transactions_met isin in
      transaction_uses_up k (asked_of_transaction k items) (transaction_total k items) o db after
        opened met
        (transaction_total-asked made.direction db k items _ made.accepted.requested
          made.accepted.items)
        (ap (λ d. d.transactions) made.written)
        (ap (transaction_allocated k) made.written
          ∙ transaction_allocated-write (batch_request actor b items) made.direction made.mode fresh
              db k (c.reversals_known fresh unused))

-- The batches table does not enter into what is open.
open_amounts-batches :
    (k : ℕ) (db : Database) (rows : List SettlementBatch)
    → (invoice_open_amount k (record db { batches = rows }) ≡ invoice_open_amount k db)
      × (transaction_open_amount k (record db { batches = rows }) ≡ transaction_open_amount k db)
unfolding invoice_open_amount transaction_open_amount invoice_allocated transaction_allocated
open_amounts-batches k db rows = (refl, refl)

-- After a call of `confirm_settlement_batch` that returned, from consistent tables and with a key
-- that no reconciliation had, nothing is open of any invoice or any payment of the batch.
pub confirm_settlement_batch-settles :
    (batch_id : ℕ) (actor : Actor) (items : List AllocationInput) (version fresh : ℕ)
    (db db' : Database)
    → IsConsistent db
    → find_reconciliation fresh db ≡ none
    → confirm_settlement_batch batch_id actor items version fresh db ≡ ok db'
    → ((k : ℕ)
        → contains k (members batch_id db.batch_invoices) ≡ true
        → invoice_open_amount k db' ≡ ok (pos 0))
      × ((k : ℕ)
          → contains k (members batch_id db.batch_transactions) ≡ true
          → transaction_open_amount k db' ≡ ok (pos 0))
confirm_settlement_batch-settles batch_id actor items version fresh db db' c unused h =
    let d = confirm_settlement_batch-Confirmed batch_id actor items version fresh db db' h in
    let made = create_reconciliation-Created _ fresh db d.after d.created in
    let same = find-id batch_id db.batches d.b d.found in
    (
      λ k isin.
          rw (d.written, (open_amounts-batches k d.after _).0)
            (invoice_settled actor d.b items fresh db d.after c unused d.accepted made k
              (rw same isin)),
      λ k isin.
          rw (d.written, (open_amounts-batches k d.after _).1)
            (transaction_settled actor d.b items fresh db d.after c unused d.accepted made k
              (rw same isin)),
    )
