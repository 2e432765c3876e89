-- ===== src/Imports/Confirm/Tallies.antt =====
-- The loop of `confirm_batch` of apps/imports/services.py counts what it does: every row that was valid
-- is posted, or counted as a new duplicate or a new error.
use finance_reconciliation.Prelude.{
  ℕ, ◌+◌, ◌≡◌, sym, inl, inr, true, Option, none, some, List, [], ◌∷◌, arith, ◌==◌, subst,
  Bool-cases,
}
use finance_reconciliation.Accounts.Roles.{Actor}
use finance_reconciliation.Ledger.{Invoice}
use finance_reconciliation.Imports.Rows.{Normalized, ImportBatch, StagedRow}
use finance_reconciliation.Imports.Tables.{
  ok, or_raise, >>=-eq-ok, ok-injective, data_error, Tables, Surroundings,
}
use finance_reconciliation.Imports.Disposition.{
  Disposition, new, duplicate, conflict, status_update,
}
use finance_reconciliation.Imports.Staging.Prepare.{status_of}
use finance_reconciliation.Imports.Confirm.Insertions.{Posting, known_of}
use finance_reconciliation.Imports.Confirm.Posting.{
  mark_duplicate, mark_invoice_conflict, update_invoice_status, settle_row, confirm_row, is_pending,
  turn, confirm_rows,
}
use finance_reconciliation.Imports.Confirm.Turns.{Turned, settles, inserts, confirm_row-Turned}
use finance_reconciliation.Imports.Confirm.Operation.{count_where}
use finance_reconciliation.Imports.Staging.Counts.{is_valid, is_double, is_error, is_posted}

-- Between two states of the loop over rows of batch `k`.
pub record Tallied (k : ℕ) (p : Posting) (rows : List StagedRow) (p' : Posting)
    (rows' : List StagedRow) : Type 0 where
  pub total : count_where (λ row. row.batch == k) rows' ≡ count_where (λ row. row.batch == k) rows
  pub errors :
      count_where (is_error k) rows' + p.new_errors ≡ count_where (is_error k) rows + p'.new_errors
  pub duplicates :
      count_where (is_double k) rows' + p.new_duplicates
      ≡ count_where (is_double k) rows + p'.new_duplicates
  -- where none was posted before
  pub posted :
      count_where (is_posted k) rows ≡ 0
      → count_where (is_posted k) rows' ≡ count_where (is_valid k) rows'

-- Of one row.
abbrev pub Tallies : ℕ → StagedRow → Posting → StagedRow × Posting → Type 0
Tallies k row p result = Tallied k p (row ∷ []) result.1 (result.0 ∷ [])

Tallied-cons :
    (k : ℕ) (p p₁ p₂ : Posting) (row row' : StagedRow) (rows rows' : List StagedRow)
    → Tallies k row p (row', p₁)
    → Tallied k p₁ rows p₂ rows'
    → Tallied k p (row ∷ rows) p₂ (row' ∷ rows')
Tallied-cons k p p₁ p₂ row row' rows rows' one more = record {
  total = omega (arith, one.total, more.total);
  errors = omega (arith, one.errors, more.errors);
  duplicates = omega (arith, one.duplicates, more.duplicates);
  posted =
      λ none. omega (arith, one.posted (omega (arith, none)), more.posted (omega (arith, none)));
}

module _ (w : Surroundings) (db : Tables) (batch : ImportBatch) (actor : Actor)
    (fresh now : ℕ) where
  settle_row-Tallied :
      (row : StagedRow) (r : Normalized) (found : Disposition × Option Invoice) (p : Posting)
      (result : StagedRow × Posting)
      → is_pending w db batch actor fresh now row ≡ true
      → settle_row w db batch actor fresh now row r found p ≡ ok result
      → Tallies batch.id row p result
  unfolding settle_row mark_duplicate mark_invoice_conflict update_invoice_status
  settle_row-Tallied row r (duplicate, existing) p result pending h =
      subst (Tallies batch.id row p) (ok-injective h) (ground arith)
  settle_row-Tallied row r (conflict, some existing) p result pending h =
      subst (Tallies batch.id row p) (ok-injective h) (ground arith)
  settle_row-Tallied row r (conflict, none) p result pending h = cc
  settle_row-Tallied row r (status_update, some existing) p result pending h =
      let (status, _, h₁) = >>=-eq-ok (or_raise (known_of (status_of r)) data_error) _ h in
      subst (Tallies batch.id row p) (ok-injective h₁) (ground arith)
  settle_row-Tallied row r (status_update, none) p result pending h = cc
  settle_row-Tallied row r (new, existing) p result pending h = cc

  confirm_row-Tallied :
      (row : StagedRow) (p : Posting) (result : StagedRow × Posting)
      → is_pending w db batch actor fresh now row ≡ true
      → confirm_row w db batch actor fresh now row p ≡ ok result
      → Tallies batch.id row p result
  confirm_row-Tallied row p result pending h =
      let (r, _, turned) = confirm_row-Turned w db batch actor fresh now row p result h in
      Turned-Tallied r turned
    where
      Turned-Tallied :
          (r : Normalized)
          → Turned w db batch actor fresh now row r p result
          → Tallies batch.id row p result
      Turned-Tallied r (settles books _ found _ settled) =
          let t =
            settle_row-Tallied row r found (record p { books = books }) result pending settled in
          record {
            total = t.total;
            errors = t.errors;
            duplicates = t.duplicates;
            posted = t.posted;
          }
      Turned-Tallied r (inserts books _ e) = subst (Tallies batch.id row p) (sym e) (ground arith)

  turn-Tallied :
      (row : StagedRow) (p : Posting) (result : StagedRow × Posting)
      → turn w db batch actor fresh now row p ≡ ok result
      → Tallies batch.id row p result
  turn-Tallied row p result h = elim (Bool-cases (is_pending w db batch actor fresh now row)) [
    | inl pending ↦ confirm_row-Tallied row p result pending (rw pending at h)
    | inr other ↦ subst (Tallies batch.id row p) (ok-injective (rw other at h)) (ground arith)
  ]

  pub confirm_rows-Tallied :
      (rows : List StagedRow) (p : Posting) (result : List StagedRow × Posting)
      → confirm_rows w db batch actor fresh now rows p ≡ ok result
      → Tallied batch.id p rows result.1 result.0
  unfolding confirm_rows
  confirm_rows-Tallied [] p result h =
      subst (λ (r : List StagedRow × Posting). Tallied batch.id p [] r.1 r.0) (ok-injective h)
        (ground arith)
  confirm_rows-Tallied (row ∷ rows) p result h =
      let (first, e₁, h₁) = >>=-eq-ok (turn w db batch actor fresh now row p) _ h in
      let (more, e₂, h₂) = >>=-eq-ok (confirm_rows w db batch actor fresh now rows first.1) _ h₁ in
      subst (λ (r : List StagedRow × Posting). Tallied batch.id p (row ∷ rows) r.1 r.0)
        (ok-injective h₂)
        (Tallied-cons batch.id p first.1 more.1 row first.0 rows more.0
          (turn-Tallied row p first e₁) (confirm_rows-Tallied rows first.1 more e₂))
