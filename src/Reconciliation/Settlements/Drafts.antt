-- ===== src/Reconciliation/Settlements/Drafts.antt =====
-- `create_settlement_batch` of apps/reconciliation/settlements.py. The order in which the queries
-- return the members is left out, since a batch is read as two sets.
use finance_reconciliation.Prelude.{
  ℕ, Bool, not, ◌&&◌, Option, List, [], ◌∷◌, ◌++◌, map, ltb, leb, length, any, select, contains,
  ◌==◌,
}
use finance_reconciliation.Accounts.Roles.{Actor, is_finance_actor}
use finance_reconciliation.Ledger.{
  Invoice, MoneyTransaction, invoice_direction_eq, money_direction_eq, is_normal, local_date,
}
use finance_reconciliation.Reconciliation.Result.{
  Result, ok, guard, raise_if, or_raise, ◌>>=◌, ◌>>◌, permission_denied, period_reversed,
  bad_batch_direction, counterparty_missing, no_open_invoices, no_open_transactions,
}
use finance_reconciliation.Reconciliation.Database.{
  Direction, draft, settlement_batch_created, Database, is_active,
}
use finance_reconciliation.Reconciliation.Queries.{invoice_allocated, transaction_allocated}
use finance_reconciliation.Reconciliation.Services.Validation.{
  invoice_direction_for, money_direction_for, same_counterparty,
}

-- Whether some active allocation names the invoice, or the payment.
abbrev pub invoice_in_use : Database → ℕ → Bool
invoice_in_use db k =
    any (λ a. a.invoice == k && is_active db.reversals a.reconciliation) db.allocations

abbrev pub transaction_in_use : Database → ℕ → Bool
transaction_in_use db k =
    any (λ a. a.transaction == k && is_active db.reversals a.reconciliation) db.allocations

abbrev pub within : ℕ → ℕ → ℕ → Bool
within first last day = leb first day && leb day last

-- The filters of the two queries, with the test that something is open. The days of payments are
-- those of the current time zone.
unfoldable pub invoice_eligible : Database → ℕ → Direction → ℕ → ℕ → Invoice → Bool
invoice_eligible db counterparty direction first last i =
    i.counterparty == counterparty
    && invoice_direction_eq i.direction (invoice_direction_for direction)
    && is_normal i.status
    && within first last i.issue_date
    && not (invoice_in_use db i.id)
    && ltb (invoice_allocated i.id db) i.total_amount

unfoldable pub transaction_eligible : Database → ℕ → Direction → ℕ → ℕ → MoneyTransaction → Bool
transaction_eligible db counterparty direction first last m =
    same_counterparty counterparty m.counterparty
    && money_direction_eq m.direction (money_direction_for direction)
    && within first last (local_date m.occurred_at)
    && not (transaction_in_use db m.id)
    && ltb (transaction_allocated m.id db) m.amount

-- The rows that `create_settlement_batch` writes.
unfoldable pub write_batch :
    Actor → ℕ → Direction → ℕ → ℕ → List Invoice → List MoneyTransaction → ℕ → Database → Database
write_batch actor counterparty direction first last invoices transactions fresh db = record db {
  batches =
      db.batches
      ++ record {
        id = fresh;
        counterparty = counterparty;
        direction = direction;
        period_start = first;
        period_end = last;
        status = draft;
        version = 1;
        created_by = actor.pk;
      }
        ∷ [];
  batch_invoices = db.batch_invoices ++ map (λ i. record { batch = fresh; item = i.id }) invoices;
  batch_transactions =
      db.batch_transactions ++ map (λ m. record { batch = fresh; item = m.id }) transactions;
  audit =
      db.audit
      ++ record {
        actor = actor.pk;
        action = settlement_batch_created (length invoices) (length transactions);
        target_id = fresh;
      }
        ∷ [];
}

-- `create_settlement_batch`; `direction` is `none` for a string that is no direction, and `fresh` is
-- the key that `uuid4` draws.
unfoldable pub create_settlement_batch :
    Actor → ℕ → Option Direction → ℕ → ℕ → ℕ → Database → Result Database
create_settlement_batch actor counterparty direction first last fresh db = do
  guard (is_finance_actor actor db.directory) permission_denied
  raise_if (ltb last first) period_reversed
  way ← or_raise direction bad_batch_direction
  guard (contains counterparty db.counterparties) counterparty_missing
  let invoices = select (invoice_eligible db counterparty way first last) db.invoices
  raise_if (length invoices == 0) no_open_invoices
  let transactions = select (transaction_eligible db counterparty way first last) db.transactions
  raise_if (length transactions == 0) no_open_transactions
  ok (write_batch actor counterparty way first last invoices transactions fresh db)
