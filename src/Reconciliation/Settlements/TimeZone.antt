-- ===== src/Reconciliation/Settlements/TimeZone.antt =====
-- The query that fills a batch takes the days of payments in the current time zone, and the test at
-- the confirmation takes them in UTC.
use finance_reconciliation.Prelude.{
  ℕ, ◌*◌, ◌≡◌, ◌≢◌, ◌≤◌, ◌<◌, refl, ap, Bool, true, some, none, List, [], ◌∷◌, arith, contains, any,
  find, select, map, length, ltb, sym, ◌++◌, ◌==◌, Bool-cases, inl, inr,
}
use finance_reconciliation.Accounts.Roles.{Actor, is_finance_actor}
use finance_reconciliation.Ledger.{MoneyTransaction, day_length, utc_date}
use finance_reconciliation.Reconciliation.Result.{
  ok, >>-eq-ok, guard, raise_if, ok-injective, permission_denied, period_reversed,
  counterparty_missing, no_open_invoices, no_open_transactions,
}
use finance_reconciliation.Reconciliation.Database.{
  Direction, SettlementBatch, BatchItem, Database, find_transaction,
}
use finance_reconciliation.Reconciliation.Services.Validation.{AllocationInput}
use finance_reconciliation.Reconciliation.Settlements.Drafts.{
  invoice_eligible, transaction_eligible, write_batch, create_settlement_batch,
}
use finance_reconciliation.Reconciliation.Settlements.Confirm.{
  if_found, find_batch, members, validate_batch_transaction, validate_batch_transactions,
  confirm_settlement_batch,
}
use finance_reconciliation.Reconciliation.Settlements.Accepted.{confirm_settlement_batch-Confirmed}

checked-in_period :
    (b : SettlementBatch) (m : MoneyTransaction)
    → validate_batch_transaction b m ≡ ok tt
    → (b.period_start ≤ utc_date m.occurred_at) × (utc_date m.occurred_at ≤ b.period_end)
unfolding validate_batch_transaction
checked-in_period b m h = ground arith

member-in_period :
    (b : SettlementBatch) (db : Database) (k : ℕ) (m : MoneyTransaction) (ks : List ℕ)
    → validate_batch_transactions b db ks ≡ ok tt
    → contains k ks ≡ true
    → find_transaction k db ≡ some m
    → validate_batch_transaction b m ≡ ok tt
unfolding validate_batch_transactions
member-in_period b db k m [] h isin found = cc
member-in_period b db k m (j ∷ ks) h isin found =
    let (first, rest) =
      >>-eq-ok (if_found (find_transaction j db) (validate_batch_transaction b)) _ h in
    elim (Bool-cases (k == j)) [
      | inl same ↦ ground arith
      | inr other ↦ member-in_period b db k m ks rest (ground arith) found
    ]

any-select :
    (p : MoneyTransaction → Bool) (k : ℕ) (m : MoneyTransaction) (rows : List MoneyTransaction)
    → find (λ x. x.id == k) rows ≡ some m
    → p m ≡ true
    → any (λ x. x.id == k) (select p rows) ≡ true
any-select p k m [] found passes = cc
any-select p k m (x ∷ rows) found passes = ground (arith, any-select p k m rows)

contains-members :
    (fresh k : ℕ) (rows : List BatchItem) (ms : List MoneyTransaction)
    → any (λ x. x.id == k) ms ≡ true
    → contains k (members fresh (rows ++ map (λ m. record { batch = fresh; item = m.id }) ms))
      ≡ true
contains-members fresh k [] [] h = cc
contains-members fresh k [] (m ∷ ms) h = ground (arith, contains-members fresh k [] ms)
contains-members fresh k (row ∷ rows) ms h = ground (arith, contains-members fresh k rows ms h)

find-new :
    (k : ℕ) (rows : List SettlementBatch) (row : SettlementBatch)
    → find (λ x. x.id == k) rows ≡ none
    → row.id ≡ k
    → find (λ x. x.id == k) (rows ++ row ∷ []) ≡ some row
find-new k [] row h e = ground arith
find-new k (x ∷ rows) row h e = ground (arith, find-new k rows row)

found-new :
    (k : ℕ) (rows : List SettlementBatch) (row b : SettlementBatch)
    → find (λ x. x.id == k) rows ≡ none
    → row.id ≡ k
    → find (λ x. x.id == k) (rows ++ row ∷ []) ≡ some b
    → b ≡ row
found-new k rows row b h e found = let last = find-new k rows row h e in cc

-- What the draft holds, once the call has returned.
abbrev written_by : Actor → ℕ → Direction → ℕ → ℕ → ℕ → Database → Database
written_by actor counterparty way first last fresh db =
    write_batch actor counterparty way first last
      (select (invoice_eligible db counterparty way first last) db.invoices)
      (select (transaction_eligible db counterparty way first last) db.transactions) fresh db

pub create_settlement_batch-writes :
    (actor : Actor) (counterparty : ℕ) (way : Direction) (first last fresh : ℕ) (db db₁ : Database)
    → create_settlement_batch actor counterparty (some way) first last fresh db ≡ ok db₁
    → db₁ ≡ written_by actor counterparty way first last fresh db
unfolding create_settlement_batch
create_settlement_batch-writes actor counterparty way first last fresh db db₁ h =
    let (u, h₁) = >>-eq-ok (guard (is_finance_actor actor db.directory) permission_denied) _ h in
    let (v, h₂) = >>-eq-ok (raise_if (ltb last first) period_reversed) _ h₁ in
    let (w, h₃) =
      >>-eq-ok (guard (contains counterparty db.counterparties) counterparty_missing) _ h₂ in
    let (x, h₄) =
      >>-eq-ok
        (raise_if
          (length (select (invoice_eligible db counterparty way first last) db.invoices) == 0)
          no_open_invoices)
        _ h₃ in
    let (y, h₅) =
      >>-eq-ok
        (raise_if
          (length (select (transaction_eligible db counterparty way first last) db.transactions)
            == 0)
          no_open_transactions)
        _ h₄ in
    sym (ok-injective h₅)

utc_date-before : (t day : ℕ) → t < day * day_length → utc_date t < day
unfolding utc_date
utc_date-before t day h = omega arith

-- The new row is the batch that the confirmation finds.
found-period_start :
    (actor : Actor) (counterparty : ℕ) (way : Direction) (first last fresh : ℕ) (db : Database)
    (b : SettlementBatch)
    → find_batch fresh db ≡ none
    → find_batch fresh (written_by actor counterparty way first last fresh db) ≡ some b
    → (b.id ≡ fresh) × (b.period_start ≡ first)
unfolding write_batch
found-period_start actor counterparty way first last fresh db b unused found =
    let same = found-new fresh db.batches _ b unused refl found in
    (ap (λ b. b.id) same, ap (λ b. b.period_start) same)

written_by-member :
    (actor : Actor) (counterparty : ℕ) (way : Direction) (first last fresh k : ℕ) (db : Database)
    (m : MoneyTransaction)
    → find_transaction k db ≡ some m
    → transaction_eligible db counterparty way first last m ≡ true
    → contains k
        (members fresh (written_by actor counterparty way first last fresh db).batch_transactions)
      ≡ true
unfolding write_batch
written_by-member actor counterparty way first last fresh k db m paid eligible =
    contains-members fresh k db.batch_transactions _ (
      any-select (transaction_eligible db counterparty way first last) k m db.transactions paid
        eligible)

-- A draft that `create_settlement_batch` has filled with an eligible payment made before midnight UTC
-- of the first day (within the first eight hours of that day by the time zone of the query) is not
-- confirmed on the tables that the draft leaves, whoever asks and whatever the allocations and the
-- version.
pub create_settlement_batch-early_payment :
    (actor other : Actor) (counterparty : ℕ) (way : Direction) (first last fresh k : ℕ)
    (m : MoneyTransaction) (items : List AllocationInput) (version key : ℕ) (db db₁ db₂ : Database)
    → find_batch fresh db ≡ none
    → create_settlement_batch actor counterparty (some way) first last fresh db ≡ ok db₁
    → find_transaction k db ≡ some m
    → transaction_eligible db counterparty way first last m ≡ true
    → m.occurred_at < first * day_length
    → confirm_settlement_batch fresh other items version key db₁ ≢ ok db₂
unfolding write_batch
create_settlement_batch-early_payment actor other counterparty way first last fresh k m items
      version key db db₁ db₂ unused made paid eligible early h =
    let writes =
      create_settlement_batch-writes actor counterparty way first last fresh db db₁ made in
    let d =
      confirm_settlement_batch-Confirmed fresh other items version key
        (written_by actor counterparty way first last fresh db) db₂ (rw (← writes) h) in
    let (same, starts) =
      found-period_start actor counterparty way first last fresh db d.b unused d.found in
    let isin = written_by-member actor counterparty way first last fresh k db m paid eligible in
    let checked =
      member-in_period d.b (written_by actor counterparty way first last fresh db) k m _
        d.accepted.transactions_in_period (rw same isin) paid in
    let inside = checked-in_period d.b m checked in
    let before = utc_date-before m.occurred_at first early in ground (arith, inside.0)
