-- ===== src/Imports/Confirm/Snapshots.antt =====
-- `_create_balance_snapshots` and `_create_balance_snapshot` of apps/imports/services.py.
use finance_reconciliation.Prelude.{
  ℕ, ◌*◌, Bool, true, false, ◌&&◌, ◌||◌, Option, none, some, List, [], ◌∷◌, ◌++◌, find, ltb, ◌==◌,
  is_some, if◌then◌else◌,
}
use finance_reconciliation.Prelude.Int.{ℤ, pos_part, neg_part, eqb_ℤ}
use finance_reconciliation.Money.Amount.{
  Amount, decimal, nan, infinity, integer, foreign, units_per_cent,
}
use finance_reconciliation.Imports.Coverage.{SourceKind, kind_eq}
use finance_reconciliation.Imports.Rows.{
  Normalized, invoice, money, ImportBatch, StagedRow, as_decimal,
}
use finance_reconciliation.Imports.Mapping.{utc_instant}
use finance_reconciliation.Imports.Matching.{Registers, resolve_funding_account}
use finance_reconciliation.Imports.Tables.{
  ok, guard, or_raise, ◌>>=◌, ◌>>◌, snapshot_conflict, data_error, Result, AccountBalanceSnapshot,
  Surroundings,
}

-- An entry of `latest_by_account`.
pub record Latest : Type 0 where
  pub account : ℕ
  pub occurred_at : ℕ
  pub row_number : ℕ
  pub balance : Amount

abbrev pub measured : ℕ → Option ℕ → Option ℕ → Option Amount → Option Latest
measured row_number (some account) (some t) (some balance) =
    some (record { account = account; occurred_at = t; row_number = row_number; balance = balance })
measured row_number none t balance = none
measured row_number (some account) none balance = none
measured row_number (some account) (some t) none = none

abbrev pub measured_in : Registers → ℕ → Option Normalized → Option Latest
measured_in registers row_number none = none
measured_in registers row_number (some (invoice r)) = none
measured_in registers row_number (some (money r)) =
    measured row_number (resolve_funding_account r registers).value (utc_instant r.occurred_at)
      r.balance_after

-- The `candidate` of a row, with its account; `none` where the loop goes on to the next row. A row that
-- was posted has an aware instant.
unfoldable pub candidate : Registers → ImportBatch → StagedRow → Option Latest
candidate registers batch row =
    if row.batch == batch.id
      && is_some row.posted_at
      && elim row.issues [ [] ↦ true | i ∷ is ↦ false ]
    then measured_in registers row.row_number row.normalized_data
    else none

-- `candidate[0] > previous[1] or (candidate[0] == previous[1] and candidate[1] < previous[2])`
abbrev pub supersedes : Latest → Latest → Bool
supersedes c previous =
    ltb previous.occurred_at c.occurred_at
    || c.occurred_at == previous.occurred_at && ltb c.row_number previous.row_number

-- One turn of the loop: the dict keeps the place of an account.
abbrev pub keep_latest : Latest → List Latest → List Latest
keep_latest c [] = c ∷ []
keep_latest c (previous ∷ entries) =
    let rest = keep_latest c entries in
    if c.account == previous.account
    then (if supersedes c previous then c ∷ entries else previous ∷ entries)
    else previous ∷ rest

abbrev pub keep_candidate : Option Latest → List Latest → List Latest
keep_candidate none entries = entries
keep_candidate (some c) entries = keep_latest c entries

-- The loop over the rows.
unfoldable pub latest_by_account :
    Registers → ImportBatch → List StagedRow → List Latest → List Latest
unfolding candidate
latest_by_account registers batch [] entries = entries
latest_by_account registers batch (row ∷ rows) entries =
    latest_by_account registers batch rows (keep_candidate (candidate registers batch row) entries)

-- `existing.balance == balance`
abbrev pub is_balance : ℤ → Amount → Bool
is_balance cents (decimal z) =
    pos_part cents * units_per_cent == pos_part z && neg_part cents * units_per_cent == neg_part z
is_balance cents nan = false
is_balance cents (infinity b) = false
is_balance cents (integer z) = eqb_ℤ cents z
is_balance cents foreign = false

abbrev pub is_snapshot_at : Latest → AccountBalanceSnapshot → Bool
is_snapshot_at c s = s.account == c.account && s.as_of == c.occurred_at

abbrev pub snapshot_of : ImportBatch → Latest → ℤ → AccountBalanceSnapshot
snapshot_of batch c cents = record {
  account = c.account;
  as_of = c.occurred_at;
  balance = cents;
  source_batch = batch.id;
}

module _ (w : Surroundings) (batch : ImportBatch) where
  abbrev pub same_balance :
      Latest
      → AccountBalanceSnapshot
      → List AccountBalanceSnapshot
      → Result (List AccountBalanceSnapshot)
  same_balance c existing snapshots = do
    guard (is_balance existing.balance (as_decimal c.balance)) snapshot_conflict
    ok snapshots

  -- The insertion, and what follows its `IntegrityError`: `uniq_account_balance_snapshot` refuses a
  -- second snapshot of an account at an instant.
  abbrev pub insert_snapshot :
      Latest
      → ℤ
      → Option AccountBalanceSnapshot
      → List AccountBalanceSnapshot
      → Result (List AccountBalanceSnapshot)
  insert_snapshot c cents none snapshots = ok (snapshots ++ snapshot_of batch c cents ∷ [])
  insert_snapshot c cents (some existing) snapshots = same_balance c existing snapshots

  abbrev pub unless_existing :
      Latest
      → Option AccountBalanceSnapshot
      → List AccountBalanceSnapshot
      → Result (List AccountBalanceSnapshot)
  unless_existing c (some existing) snapshots = same_balance c existing snapshots
  unless_existing c none snapshots = do
    cents ← or_raise (w.column c.balance) data_error
    let now = w.before_snapshot c.account snapshots
    insert_snapshot c cents (find (is_snapshot_at c) now) now

  -- `_create_balance_snapshot`
  unfoldable pub create_balance_snapshot :
      Latest → List AccountBalanceSnapshot → Result (List AccountBalanceSnapshot)
  create_balance_snapshot c snapshots =
      unless_existing c (find (is_snapshot_at c) snapshots) snapshots

  unfoldable pub create_each :
      List Latest → List AccountBalanceSnapshot → Result (List AccountBalanceSnapshot)
  unfolding create_balance_snapshot
  create_each [] snapshots = ok snapshots
  create_each (c ∷ entries) snapshots = do
    snapshots ← create_balance_snapshot c snapshots
    create_each entries snapshots

  -- `_create_balance_snapshots`
  unfoldable pub create_balance_snapshots :
      Registers
      → List StagedRow
      → List AccountBalanceSnapshot
      → Result (List AccountBalanceSnapshot)
  unfolding create_each latest_by_account
  create_balance_snapshots registers rows snapshots =
      if kind_eq batch.source_kind SourceKind.bank
      then create_each (latest_by_account registers batch rows []) snapshots
      else ok snapshots
