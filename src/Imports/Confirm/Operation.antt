-- ===== src/Imports/Confirm/Operation.antt =====
-- `confirm_batch` of apps/imports/services.py, with `ImportResult.from_batch` of apps/imports/types.py.
use finance_reconciliation.Prelude.{
  ℕ, ◌+◌, ◌-◌, Bool, ◌&&◌, Option, none, some, List, [], ◌∷◌, ◌++◌, find, ltb, ◌==◌, is_some,
  if◌then◌else◌,
}
use finance_reconciliation.Accounts.Roles.{Actor, is_finance_actor}
use finance_reconciliation.Imports.Rows.{partial, completed, ImportBatch, StagedRow}
use finance_reconciliation.Imports.Tables.{
  ok, guard, raise_if, or_raise, ◌>>=◌, ◌>>◌, permission_denied, does_not_exist, integrity_error,
  Result, ImportResult, import_confirmed, Tables, Surroundings,
}
use finance_reconciliation.Imports.Confirm.Insertions.{Posting}
use finance_reconciliation.Imports.Confirm.Posting.{confirm_rows}
use finance_reconciliation.Imports.Confirm.Snapshots.{create_balance_snapshots}

-- How many rows pass a test.
abbrev pub count_where : (StagedRow → Bool) → List StagedRow → ℕ
count_where p [] = 0
count_where p (row ∷ rows) = (if p row then 1 else 0) + count_where p rows

abbrev pub in_batch : ℕ → StagedRow → Bool
in_batch k row = row.batch == k

-- `ImportResult.from_batch`
unfoldable pub from_batch : ImportBatch → List StagedRow → ImportResult
from_batch batch rows = record {
  batch_id = batch.id;
  posted_rows = count_where (λ row. row.batch == batch.id && is_some row.posted_at) rows;
  duplicate_rows = batch.duplicate_rows;
  error_rows = batch.error_rows;
}

-- The batch as it is saved at the end.
unfoldable pub confirmed_batch : ImportBatch → Posting → ℕ → ImportBatch
confirmed_batch batch p now =
    let error_rows = batch.error_rows + p.new_errors in
    record batch {
      duplicate_rows = batch.duplicate_rows + p.new_duplicates;
      error_rows = error_rows;
      valid_rows = batch.valid_rows - p.new_duplicates - p.new_errors;
      confirmed_at = some now;
      status = if error_rows == 0 then completed else partial;
    }

abbrev pub save_batch : ImportBatch → List ImportBatch → List ImportBatch
save_batch b [] = []
save_batch b (c ∷ batches) = (if c.id == b.id then b else c) ∷ save_batch b batches

abbrev pub find_batch : ℕ → Tables → Option ImportBatch
find_batch k db = find (λ b. b.id == k) db.batches

module _ (w : Surroundings) (fresh now : ℕ) where
  -- What follows the test on `confirmed_at`. A column of `valid_rows` holds no negative number.
  unfoldable pub confirm_pending : Actor → ImportBatch → Tables → Result (ImportResult × Tables)
  unfolding from_batch confirmed_batch confirm_rows create_balance_snapshots
  confirm_pending actor batch db = do
    (rows, p) ←
        confirm_rows w db batch actor fresh now db.rows
          (record { books = db.books; log = db.audit; new_duplicates = 0; new_errors = 0 })
    snapshots ← create_balance_snapshots w batch db.registers rows db.snapshots
    raise_if (ltb batch.valid_rows (p.new_duplicates + p.new_errors)) integrity_error
    let confirmed = confirmed_batch batch p now
    let result = from_batch confirmed rows
    ok (
      result,
      record db {
        batches = save_batch confirmed db.batches;
        rows = rows;
        books = p.books;
        snapshots = snapshots;
        audit =
            p.log
            ++ record { actor = actor.pk; action = import_confirmed result; target_id = batch.id }
              ∷ [];
      },
    )

  abbrev pub confirm_found :
      Actor → ImportBatch → Option ℕ → Tables → Result (ImportResult × Tables)
  confirm_found actor batch (some t) db = ok (from_batch batch db.rows, db)
  confirm_found actor batch none db = confirm_pending actor batch db

  -- `confirm_batch`; `now` is the time, and the keys of the new records are drawn from `fresh` on.
  unfoldable pub confirm_batch : ℕ → Actor → Tables → Result (ImportResult × Tables)
  unfolding confirm_pending is_finance_actor
  confirm_batch batch_id actor db = do
    guard (is_finance_actor actor db.directory) permission_denied
    batch ← or_raise (find_batch batch_id db) does_not_exist
    confirm_found actor batch batch.confirmed_at db
