-- ===== src/Reconciliation/Settlements/Once.antt =====
-- A batch is confirmed once, and the tables stay consistent.
use finance_reconciliation.Prelude.{
  ℕ, ◌+◌, ◌≡◌, ap, true, some, none, List, [], ◌∷◌, arith, find, ◌==◌,
}
use finance_reconciliation.Accounts.Roles.{Actor, is_finance_actor}
use finance_reconciliation.Reconciliation.Result.{ok, err, batch_confirmed}
use finance_reconciliation.Reconciliation.Database.{
  SettlementBatch, draft, confirmed, Database, find_reconciliation,
}
use finance_reconciliation.Reconciliation.Queries.{invoice_allocated, transaction_allocated}
use finance_reconciliation.Reconciliation.Services.Validation.{AllocationInput}
use finance_reconciliation.Reconciliation.Services.Operations.{write_reconciliation}
use finance_reconciliation.Reconciliation.Services.Accepted.{create_reconciliation-Created}
use finance_reconciliation.Reconciliation.Services.Balance.{
  IsConsistent, create_reconciliation-IsConsistent,
}
use finance_reconciliation.Reconciliation.Settlements.Confirm.{
  find_batch, validate_batch_version, save_confirmed, confirm_settlement_batch,
}
use finance_reconciliation.Reconciliation.Settlements.Accepted.{confirm_settlement_batch-Confirmed}
use finance_reconciliation.Reconciliation.Settlements.Settled.{find-id}

abbrev pub closed : SettlementBatch → SettlementBatch
closed b = record b { status = confirmed; version = b.version + 1 }

find-save_confirmed :
    (k : ℕ) (b : SettlementBatch) (rows : List SettlementBatch)
    → b.id ≡ k
    → find (λ x. x.id == k) rows ≡ some b
    → find (λ x. x.id == k) (save_confirmed b rows) ≡ some (closed b)
find-save_confirmed k b [] e h = cc
find-save_confirmed k b (x ∷ rows) e h = ground (arith, find-save_confirmed k b rows)

batches-IsConsistent :
    (db : Database) (rows : List SettlementBatch)
    → IsConsistent db
    → IsConsistent (record db { batches = rows })
unfolding invoice_allocated transaction_allocated
batches-IsConsistent db rows c = record {
  invoices_fit = c.invoices_fit;
  transactions_fit = c.transactions_fit;
  reversals_known = c.reversals_known;
  allocations_known = c.allocations_known;
}

-- The closed row is found in the saved table.
find_batch-saved :
    (k : ℕ) (b : SettlementBatch) (before after : Database)
    → b.id ≡ k
    → find_batch k before ≡ some b
    → after.batches ≡ before.batches
    → find_batch k (record after { batches = save_confirmed b after.batches }) ≡ some (closed b)
find_batch-saved k b before after e found same =
    simp same (find-save_confirmed k b before.batches e found)

-- From consistent tables, with a key that no reconciliation has, a call of
-- `confirm_settlement_batch` that returns leaves consistent tables.
pub confirm_settlement_batch-IsConsistent :
    (batch_id : ℕ) (actor : Actor) (items : List AllocationInput) (version fresh : ℕ)
    (db db' : Database)
    → IsConsistent db
    → find_reconciliation fresh db ≡ none
    → confirm_settlement_batch batch_id actor items version fresh db ≡ ok db'
    → IsConsistent db'
confirm_settlement_batch-IsConsistent batch_id actor items version fresh db db' c unused h =
    let d = confirm_settlement_batch-Confirmed batch_id actor items version fresh db db' h in
    rw d.written (
      batches-IsConsistent d.after _
        (create_reconciliation-IsConsistent _ fresh db d.after c unused d.created))

confirm_settlement_batch-closes :
    (batch_id : ℕ) (actor : Actor) (items : List AllocationInput) (version fresh : ℕ)
    (db db' : Database)
    → confirm_settlement_batch batch_id actor items version fresh db ≡ ok db'
    → (b : SettlementBatch) × (find_batch batch_id db ≡ some b)
      × (b.status ≡ draft)
      × (b.version ≡ version)
      × (find_batch batch_id db' ≡ some (closed b))
unfolding validate_batch_version write_reconciliation
confirm_settlement_batch-closes batch_id actor items version fresh db db' h =
    let d = confirm_settlement_batch-Confirmed batch_id actor items version fresh db db' h in
    let made = create_reconciliation-Created _ fresh db d.after d.created in
    let same = find-id batch_id db.batches d.b d.found in
    let b = d.b in
    let current = d.current in
    (
      b,
      d.found,
      ground arith,
      ground arith,
      rw d.written
          (find_batch-saved batch_id b db d.after same d.found (ap (λ d. d.batches) made.written)),
    )

-- A confirmation that returns was given the version that the draft had, and closes the batch with the
-- next version; on the tables that it leaves, another one of the batch is refused to finance staff,
-- whatever the allocations and the version.
pub confirm_settlement_batch-once :
    (batch_id : ℕ) (actor other : Actor) (items more : List AllocationInput)
    (version fresh again_version again_fresh : ℕ) (db db' : Database)
    → confirm_settlement_batch batch_id actor items version fresh db ≡ ok db'
    → is_finance_actor other db'.directory ≡ true
    → ((b : SettlementBatch) × (find_batch batch_id db ≡ some b)
        × (b.status ≡ draft)
        × (b.version ≡ version)
        × (find_batch batch_id db' ≡ some (closed b)))
      × (confirm_settlement_batch batch_id other more again_version again_fresh db'
          ≡ err batch_confirmed)
unfolding confirm_settlement_batch validate_batch_version
confirm_settlement_batch-once batch_id actor other items more version fresh v f db db' h allowed =
    let (b, found, was, at_version, closed_now) =
      confirm_settlement_batch-closes batch_id actor items version fresh db db' h in
    ((b, found, was, at_version, closed_now), ground (arith, closed_now))
