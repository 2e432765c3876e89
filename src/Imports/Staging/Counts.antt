-- ===== src/Imports/Staging/Counts.antt =====
-- What the counters of a batch count, and that `stage_upload` of apps/imports/services.py sets them so.
use finance_reconciliation.Prelude.{
  ℕ, ◌+◌, ◌≡◌, refl, sym, Bool, true, false, not, ◌&&◌, Option, none, some, List, [], ◌∷◌, ◌++◌,
  map, ltb, subst, length, arith, ◌==◌, ==_refl, is_some,
}
use finance_reconciliation.Imports.Rows.{Normalized, RowIssue, ParsedRow, ImportBatch, StagedRow}
use finance_reconciliation.Imports.Tables.{
  ok, raise_if, too_many_rows, >>=-eq-ok, >>-eq-ok, ok-injective, Tables, Surroundings,
}
use finance_reconciliation.Imports.Coverage.{SourceKind}
use finance_reconciliation.Imports.Staging.Prepare.{
  ParserOutput, finished, failed, yields, PreparedRow, Progress, count_row, prepared,
  conflict_issues, is_duplicated, prepare_with, prepare_clean, disposition_among,
  prepare_staged_row, prepare_from, seen,
}
use finance_reconciliation.Imports.Disposition.{duplicate_key}
use finance_reconciliation.Imports.Staging.Files.{staged_row, insert_row, by_number}
use finance_reconciliation.Imports.Confirm.Operation.{count_where}

abbrev pub no_issues : List RowIssue → Bool
no_issues [] = true
no_issues (issue ∷ issues) = false

-- The three kinds of rows of a batch, of which a row is just one.
abbrev pub is_error : ℕ → StagedRow → Bool
is_error k row = row.batch == k && not (no_issues row.issues)

abbrev pub is_double : ℕ → StagedRow → Bool
is_double k row = row.batch == k && no_issues row.issues && row.is_duplicate

abbrev pub is_valid : ℕ → StagedRow → Bool
is_valid k row = row.batch == k && no_issues row.issues && not row.is_duplicate

abbrev pub is_posted : ℕ → StagedRow → Bool
is_posted k row = row.batch == k && is_some row.posted_at

-- The counters of a batch are true of its staged rows.
pub record IsCounted (batch : ImportBatch) (rows : List StagedRow) : Type 0 where
  pub total : batch.total_rows ≡ count_where (λ row. row.batch == batch.id) rows
  pub valid : batch.valid_rows ≡ count_where (is_valid batch.id) rows
  pub duplicates : batch.duplicate_rows ≡ count_where (is_double batch.id) rows
  pub errors : batch.error_rows ≡ count_where (is_error batch.id) rows

-- Every row of the batch is one of the three.
pub count_where-kinds :
    (k : ℕ) (rows : List StagedRow)
    → count_where (is_valid k) rows + count_where (is_double k) rows + count_where (is_error k) rows
      ≡ count_where (λ row. row.batch == k) rows
count_where-kinds k [] = omega arith
count_where-kinds k (row ∷ rows) = ground (arith, count_where-kinds k rows)

pub count_where-append :
    (p : StagedRow → Bool) (xs ys : List StagedRow)
    → count_where p (xs ++ ys) ≡ count_where p xs + count_where p ys
count_where-append p [] ys = omega arith
count_where-append p (x ∷ xs) ys = omega (arith, count_where-append p xs ys)

count_where-insert_row :
    (p : StagedRow → Bool) (r : StagedRow) (rows : List StagedRow)
    → count_where p (insert_row r rows) ≡ count_where p (r ∷ rows)
count_where-insert_row p r [] = refl
count_where-insert_row p r (s ∷ rows) = ground (arith, count_where-insert_row p r rows)

pub count_where-by_number :
    (p : StagedRow → Bool) (rows : List StagedRow)
    → count_where p (by_number rows) ≡ count_where p rows
count_where-by_number p [] = refl
count_where-by_number p (r ∷ rows) =
    omega (arith, count_where-insert_row p r (by_number rows), count_where-by_number p rows)

-- Between two states of `_prepare_rows` the counters have grown by what the rows between are.
pub record Counts (k : ℕ) (before after : Progress) (rows : List StagedRow) : Type 0 where
  pub total : after.total ≡ before.total + length rows
  pub valid : after.valid ≡ before.valid + count_where (is_valid k) rows
  pub duplicates : after.duplicates ≡ before.duplicates + count_where (is_double k) rows
  pub errors : after.errors ≡ before.errors + count_where (is_error k) rows

counted :
    (k : ℕ) (row : ParsedRow) (issues : List RowIssue) (dup : Bool) (p q : Progress)
    → p.total ≡ q.total
    → p.valid ≡ q.valid
    → p.duplicates ≡ q.duplicates
    → p.errors ≡ q.errors
    → Counts k p (count_row issues dup q) (staged_row k (prepared row issues dup) ∷ [])
counted k row [] true p q t v d e = ground (arith, ==_refl k)
counted k row [] false p q t v d e = ground (arith, ==_refl k)
counted k row (issue ∷ issues) dup p q t v d e = ground (arith, ==_refl k)

-- How `_prepare_staged_row` ends: with the row's issues, and the counters moved by `count_row`.
pub record Ends (row : ParsedRow) (p : Progress) (staged : PreparedRow) (q : Progress)
    : Type 0 where
  pub issues : List RowIssue
  pub dup : Bool
  pub between : Progress
  pub total : p.total ≡ between.total
  pub valid : p.valid ≡ between.valid
  pub duplicates : p.duplicates ≡ between.duplicates
  pub errors : p.errors ≡ between.errors
  pub result :
      ◌≡◌ {A = PreparedRow × Progress}
        (staged, q)
        (prepared row issues dup, count_row issues dup between)

prepare_with-Ends :
    (w : Surroundings) (kind : SourceKind) (db : Tables) (row : ParsedRow) (issues : List RowIssue)
    (p q : Progress) (staged : PreparedRow)
    → prepare_with w kind db row issues p ≡ ok (staged, q)
    → Ends row p staged q
prepare_with-Ends w kind db row [] p q staged h = prepare_clean-Ends row.normalized h
  where
    prepare_clean-Ends :
        (normalized : Option Normalized)
        → prepare_clean w kind db row normalized p ≡ ok (staged, q)
        → Ends row p staged q
    prepare_clean-Ends none h = record {
      issues = [];
      dup = false;
      between = p;
      total = refl;
      valid = refl;
      duplicates = refl;
      errors = refl;
      result = sym (ok-injective h);
    }
    prepare_clean-Ends (some r) h =
        let (key, _, h₁) = >>=-eq-ok (duplicate_key w.library r) _ h in
        let (d, _, h₂) = >>=-eq-ok (disposition_among w kind db r (seen key p.seen_rows)) _ h₁ in
        record {
          issues = conflict_issues d r;
          dup = is_duplicated d.0;
          between = _;
          total = refl;
          valid = refl;
          duplicates = refl;
          errors = refl;
          result = sym (ok-injective h₂);
        }
prepare_with-Ends w kind db row (issue ∷ issues) p q staged h = record {
  issues = issue ∷ issues;
  dup = false;
  between = p;
  total = refl;
  valid = refl;
  duplicates = refl;
  errors = refl;
  result = sym (ok-injective h);
}

prepare_staged_row-Counts :
    (w : Surroundings) (kind : SourceKind) (db : Tables) (k : ℕ) (row : ParsedRow) (p q : Progress)
    (staged : PreparedRow)
    → prepare_staged_row w kind db row p ≡ ok (staged, q)
    → Counts k p q (staged_row k staged ∷ [])
unfolding prepare_staged_row
prepare_staged_row-Counts w kind db k row p q staged h =
    let e = prepare_with-Ends w kind db row _ p q staged h in
    subst (λ (r : PreparedRow × Progress). Counts k p r.1 (staged_row k r.0 ∷ [])) (sym e.result)
      (counted k row e.issues e.dup p e.between e.total e.valid e.duplicates e.errors)

pub prepare_from-Counts :
    (w : Surroundings) (kind : SourceKind) (db : Tables) (k limit count : ℕ) (parsed : ParserOutput)
    (p q : Progress) (rows : List PreparedRow)
    → prepare_from w kind db limit count parsed p ≡ ok (rows, q)
    → Counts k p q (map (staged_row k) rows)
unfolding prepare_from
prepare_from-Counts w kind db k limit count finished p q rows h = ground arith
prepare_from-Counts w kind db k limit count (failed failure) p q rows h = cc
prepare_from-Counts w kind db k limit count (yields row more) p q rows h =
    let (_, h₁) = >>-eq-ok (raise_if (ltb limit (count + 1)) too_many_rows) _ h in
    let (first, e₁, h₂) = >>=-eq-ok (prepare_staged_row w kind db row p) _ h₁ in
    let (others, e₂, h₃) = >>=-eq-ok (prepare_from w kind db limit (count + 1) more first.1) _ h₂ in
    let one = prepare_staged_row-Counts w kind db k row p first.1 first.0 e₁ in
    let rest =
      prepare_from-Counts w kind db k limit (count + 1) more first.1 others.1 others.0 e₂ in
    let e : ◌≡◌ {A = List PreparedRow × Progress} (first.0 ∷ others.0, others.1) (rows, q) =
      ok-injective h₃ in
    subst (λ (r : List PreparedRow × Progress). Counts k p r.1 (map (staged_row k) r.0)) e
      (ground (arith, one, rest))
