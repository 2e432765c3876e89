-- ===== src/Imports/BatchTests.antt =====
-- Tests of the imports, and the theorems at concrete files.
use finance_reconciliation.Prelude.{
  ℕ, zero, suc, ◌*◌, ◌≡◌, refl, inl, inr, true, false, any, none, some, List, [], ◌∷◌, Prefix,
  Prefix-refl,
}
use finance_reconciliation.Ledger.{red, day_length}
use finance_reconciliation.Imports.Coverage.{SourceKind}
use finance_reconciliation.Imports.Rows.{previewed, json_value, ImportBatch, StagedRow, status_eq}
use finance_reconciliation.Imports.Tables.{ok, err, Result, ImportResult, Tables}
use finance_reconciliation.Imports.Staging.Prepare.{
  PreparedRow, Progress, no_progress, prepare_rows,
}
use finance_reconciliation.Imports.Staging.Files.{Importer, stage_upload}
use finance_reconciliation.Imports.Confirm.Snapshots.{Latest}
use finance_reconciliation.Imports.Confirm.Operation.{find_batch, confirm_batch}
use finance_reconciliation.Imports.Staging.Staged.{Staged, Uploaded, stage_upload-Staged}
use finance_reconciliation.Imports.Confirm.Repeated.{confirm_batch-once}
use finance_reconciliation.Imports.Confirm.Confirmed.{Accounted, confirm_batch-Accounted}
use finance_reconciliation.Imports.Confirm.Kept.{Grows, Cooperates, Grows-refl}
use finance_reconciliation.Imports.Confirm.Grown.{Recorded}
use finance_reconciliation.Imports.Confirm.Permanent.{confirm_batch-Grows, confirm_batch-Recorded}
use finance_reconciliation.Imports.Confirm.LatestBalances.{IsLatest}
use finance_reconciliation.Imports.Confirm.Balances.{HasSnapshot}
use finance_reconciliation.Imports.Confirm.Statement.{confirm_batch-Balances}
use finance_reconciliation.Imports.Again.Statements.{prepare_rows-again}
use finance_reconciliation.Imports.Scene.{
  alone, clerk, start, bank_importer, invoice_importer, upload, cents, statement,
}

abbrev tables_of : Result Tables → Tables
tables_of (ok db) = db
tables_of (err e) = start

abbrev staged : Importer → Tables
staged parser = tables_of (stage_upload alone 100 (parser ∷ []) upload none clerk 40 start)

abbrev no_result : ImportResult
no_result = record { batch_id = 0; posted_rows = 0; duplicate_rows = 0; error_rows = 0 }

abbrev confirmed_of : Result (ImportResult × Tables) → ImportResult × Tables
confirmed_of (ok r) = r
confirmed_of (err e) = (no_result, start)

abbrev confirmed : Importer → ImportResult × Tables
confirmed parser = confirmed_of (confirm_batch alone 50 9 40 clerk (staged parser))

abbrev statement_batch : ImportBatch
statement_batch = record {
  id = 40;
  source_kind = SourceKind.bank;
  status = previewed;
  total_rows = 3;
  valid_rows = 2;
  duplicate_rows = 1;
  error_rows = 0;
  period_start = some 1;
  period_end = some 2;
  created_by = some 1;
  confirmed_at = none;
}

stage_statement :
    stage_upload alone 100 (bank_importer ∷ []) upload none clerk 40 start
    ≡ ok (staged bank_importer)
unfolding stage_upload confirm_batch
stage_statement = refl

find_statement : find_batch 40 (staged bank_importer) ≡ some statement_batch
unfolding stage_upload confirm_batch
find_statement = refl

confirm_statement :
    confirm_batch alone 50 9 40 clerk (staged bank_importer) ≡ ok (confirmed bank_importer)
unfolding stage_upload confirm_batch
confirm_statement = refl

-- Two rows are posted, the repeated one is not.
confirm_statement_counts :
    (confirmed bank_importer).0
    ≡ record { batch_id = 40; posted_rows = 2; duplicate_rows = 1; error_rows = 0 }
unfolding stage_upload confirm_batch
confirm_statement_counts = refl

-- The invoice is booked and then reversed: one record, which is red.
confirm_reversal :
    any (λ i. status_eq i.status red) (confirmed invoice_importer).1.books.invoices ≡ true
unfolding stage_upload confirm_batch
confirm_reversal = refl

stage_upload-Staged_example : Staged 40 start (staged bank_importer)
stage_upload-Staged_example =
    stage_upload-Staged alone 100 (bank_importer ∷ []) upload none clerk 40 start
      (staged bank_importer) refl stage_statement

confirm_batch-Accounted_example :
    Accounted statement_batch 9 (confirmed bank_importer).0 (confirmed bank_importer).1
unfolding stage_upload confirm_batch
confirm_batch-Accounted_example =
    confirm_batch-Accounted alone 50 9 clerk statement_batch (staged bank_importer)
      (confirmed bank_importer).1 (confirmed bank_importer).0 find_statement refl
      (record { total = refl; valid = refl; duplicates = refl; errors = refl }) refl
      confirm_statement

confirm_batch-once_example :
    confirm_batch alone 60 11 40 clerk (confirmed bank_importer).1 ≡ ok (confirmed bank_importer)
unfolding stage_upload confirm_batch
confirm_batch-once_example =
    confirm_batch-once alone alone 50 60 9 11 40 clerk clerk (staged bank_importer)
      (confirmed bank_importer).1 (confirmed bank_importer).0 confirm_statement refl

alone-Cooperates : Cooperates alone
alone-Cooperates = record { read = λ n b d. Grows-refl b d; write = λ n b d. Grows-refl b d }

confirm_invoices :
    confirm_batch alone 50 9 40 clerk (staged invoice_importer) ≡ ok (confirmed invoice_importer)
unfolding stage_upload confirm_batch
confirm_invoices = refl

confirm_batch-Grows_example :
    Grows (staged invoice_importer).books (confirmed invoice_importer).1.books
unfolding stage_upload confirm_batch
confirm_batch-Grows_example =
    confirm_batch-Grows alone 50 9 40 clerk (staged invoice_importer) (confirmed invoice_importer).1
      (confirmed invoice_importer).0 alone-Cooperates tt confirm_invoices

abbrev row_at : ℕ → List StagedRow → StagedRow
row_at n [] = record {
  batch = 0;
  row_number = 0;
  raw_data = json_value 0;
  normalized_data = none;
  issues = [];
  is_duplicate = false;
  posted_at = none;
}
row_at zero (row ∷ rows) = row
row_at (suc n) (row ∷ rows) = row_at n rows

confirm_batch-Recorded_example :
    Recorded alone
      (staged bank_importer)
      statement_batch
      clerk
      50
      9
      (row_at 2 (staged bank_importer).rows)
      (confirmed bank_importer).1.books
unfolding stage_upload confirm_batch
confirm_batch-Recorded_example =
    confirm_batch-Recorded alone 50 9 40 clerk statement_batch (staged bank_importer)
      (confirmed bank_importer).1 (confirmed bank_importer).0 alone-Cooperates tt find_statement
      refl confirm_statement (row_at 2 (staged bank_importer).rows) (inr (inr (inl refl))) refl

abbrev last_balance : Latest
last_balance = record {
  account = 5;
  occurred_at = 2 * day_length;
  row_number = 3;
  balance = cents 60000;
}

confirm_batch-Balances_example :
    Prefix (staged bank_importer).snapshots (confirmed bank_importer).1.snapshots
    × ((e : Latest) × IsLatest
          (staged bank_importer).registers
          statement_batch
          5
          (confirmed bank_importer).1.rows
          e
        × HasSnapshot alone e (confirmed bank_importer).1.snapshots)
unfolding stage_upload confirm_batch
confirm_batch-Balances_example =
    confirm_batch-Balances alone 50 9 40 clerk statement_batch (staged bank_importer)
      (confirmed bank_importer).1 (confirmed bank_importer).0
      (row_at 2 (confirmed bank_importer).1.rows) last_balance
      (record { kept = λ n snapshots. Prefix-refl snapshots }) find_statement refl refl
      confirm_statement (inr (inr (inl refl))) refl

abbrev prepared_of : Result (List PreparedRow × Progress) → List PreparedRow × Progress
prepared_of (ok r) = r
prepared_of (err e) = ([], no_progress)

abbrev prepared_at : Tables → List PreparedRow × Progress
prepared_at db = prepared_of (prepare_rows alone SourceKind.bank db 100 statement)

abbrev statement_Uploaded :
    Uploaded alone 100 (bank_importer ∷ []) upload clerk 40 start (staged bank_importer)
unfolding stage_upload
statement_Uploaded = record {
  parser = bank_importer;
  kind = SourceKind.bank;
  rows = (prepared_at start).0;
  progress = (prepared_at start).1;
  prepared = refl;
  written = refl;
}

prepare_rows-again_example : (prepared_at (confirmed bank_importer).1).1.valid ≡ 0
unfolding stage_upload confirm_batch
prepare_rows-again_example =
    prepare_rows-again alone 100 40 50 9 (bank_importer ∷ []) upload clerk clerk start
      (staged bank_importer) (confirmed bank_importer).1 (confirmed bank_importer).0
      (prepared_at (confirmed bank_importer).1) alone-Cooperates tt refl statement_Uploaded refl
      confirm_statement refl
