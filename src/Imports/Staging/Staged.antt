-- ===== src/Imports/Staging/Staged.antt =====
-- What `stage_upload` of apps/imports/services.py leaves: a batch whose counters are true.
use finance_reconciliation.Prelude.{
  ℕ, ◌≤◌, ◌≡◌, refl, sym, Bool, Option, none, List, [], ◌∷◌, ◌++◌, map, length, any, arith, ◌==◌,
  ==_refl, subst,
}
use finance_reconciliation.Prelude.Text.{text_eq}
use finance_reconciliation.Accounts.Roles.{Actor, is_finance_actor}
use finance_reconciliation.Imports.Coverage.{SourceKind}
use finance_reconciliation.Imports.Rows.{ImportBatch, StagedRow}
use finance_reconciliation.Imports.Tables.{
  ok, guard, raise_if, >>=-eq-ok, >>-eq-ok, ok-injective, permission_denied, duplicate_source_file,
  bad_upload, integrity_error, Tables, Surroundings,
}
use finance_reconciliation.Imports.Staging.Prepare.{
  PreparedRow, Progress, no_progress, prepare_rows,
}
use finance_reconciliation.Imports.Staging.Files.{
  Importer, Upload, detect, chosen_kind, numbers_repeat, new_batch, staged_row, by_number,
  write_batch, stage_upload,
}
use finance_reconciliation.Imports.Confirm.Operation.{count_where}
use finance_reconciliation.Imports.Staging.Counts.{
  is_valid, is_double, is_error, is_posted, IsCounted, Counts, count_where-kinds,
  count_where-append, count_where-by_number, prepare_from-Counts,
}

-- A call of `stage_upload` that returned, taken apart.
pub record Uploaded (w : Surroundings) (limit : ℕ) (parsers : List Importer) (upload : Upload)
    (actor : Actor) (fresh : ℕ) (db db' : Tables) : Type 0 where
  pub parser : Importer
  pub kind : SourceKind
  pub rows : List PreparedRow
  pub progress : Progress
  pub prepared : prepare_rows w kind db limit parser.parse ≡ ok (rows, progress)
  pub written : db' ≡ write_batch actor kind upload fresh rows progress db

pub stage_upload-Uploaded :
    (w : Surroundings) (limit : ℕ) (parsers : List Importer) (upload : Upload)
    (given : Option (Option SourceKind)) (actor : Actor) (fresh : ℕ) (db db' : Tables)
    → stage_upload w limit parsers upload given actor fresh db ≡ ok db'
    → Uploaded w limit parsers upload actor fresh db db'
unfolding stage_upload
stage_upload-Uploaded w limit parsers upload given actor fresh db db' h =
    let (_, h₁) = >>-eq-ok (guard (is_finance_actor actor db.directory) permission_denied) _ h in
    let (_, h₂) = >>-eq-ok (guard upload.is_accepted bad_upload) _ h₁ in
    let known = any (λ f. text_eq f.sha256 upload.sha256) db.files in
    let (_, h₃) = >>-eq-ok (raise_if known duplicate_source_file) _ h₂ in
    let (headers, _, h₄) = >>=-eq-ok upload.headers _ h₃ in
    let (parser, _, h₅) = >>=-eq-ok (detect parsers upload.name headers) _ h₄ in
    let (kind, _, h₆) = >>=-eq-ok (chosen_kind parser given) _ h₅ in
    let (found, e, h₇) = >>=-eq-ok (prepare_rows w kind db limit parser.parse) _ h₆ in
    let (_, h₈) = >>-eq-ok (raise_if (numbers_repeat found.0) integrity_error) _ h₇ in
    record {
      parser = parser;
      kind = kind;
      rows = found.0;
      progress = found.1;
      prepared = e;
      written = sym (ok-injective h₈);
    }

count_where-is_posted :
    (k : ℕ) (rows : List StagedRow)
    → count_where (is_posted k) rows ≤ count_where (λ row. row.batch == k) rows
count_where-is_posted k [] = omega arith
count_where-is_posted k (row ∷ rows) = ground (arith, count_where-is_posted k rows)

count_where-unposted :
    (k : ℕ) (rows : List PreparedRow) → count_where (is_posted k) (map (staged_row k) rows) ≡ 0
count_where-unposted k [] = refl
count_where-unposted k (r ∷ rows) = ground (arith, count_where-unposted k rows)

count_where-all :
    (k : ℕ) (rows : List PreparedRow)
    → count_where (λ row. row.batch == k) (map (staged_row k) rows)
      ≡ length (map (staged_row k) rows)
count_where-all k [] = refl
count_where-all k (r ∷ rows) = ground (arith, ==_refl k, count_where-all k rows)

-- The new batch, its counters, and what stays.
pub record Staged (fresh : ℕ) (db db' : Tables) : Type 0 where
  pub batch : ImportBatch
  pub is_new : batch.id ≡ fresh
  pub is_open : batch.confirmed_at ≡ none
  pub added : db'.batches ≡ db.batches ++ batch ∷ []
  pub counted : IsCounted batch db'.rows
  pub unposted : count_where (is_posted fresh) db'.rows ≡ 0
  pub same_books : db'.books ≡ db.books
  pub same_snapshots : db'.snapshots ≡ db.snapshots

write_batch-Staged :
    (actor : Actor) (kind : SourceKind) (upload : Upload) (fresh : ℕ) (rows : List PreparedRow)
    (p : Progress) (db : Tables)
    → count_where (λ row. row.batch == fresh) db.rows ≡ 0
    → Counts fresh no_progress p (map (staged_row fresh) rows)
    → Staged fresh db (write_batch actor kind upload fresh rows p db)
unfolding write_batch
write_batch-Staged actor kind upload fresh rows p db free c =
    let added = by_number (map (staged_row fresh) rows) in
    let split = λ (q : StagedRow → Bool). count_where-append q db.rows added in
    let order = λ (q : StagedRow → Bool). count_where-by_number q (map (staged_row fresh) rows) in
    let old = count_where-kinds fresh db.rows in
    record {
      batch = new_batch actor kind fresh p;
      is_new = refl;
      is_open = refl;
      added = refl;
      counted = record {
        total = omega (
          arith,
          c.total,
          split (λ row. row.batch == fresh),
          order (λ row. row.batch == fresh),
          count_where-all fresh rows,
          free,
        );
        valid = omega (arith, c.valid, split (is_valid fresh), order (is_valid fresh), old, free);
        duplicates =
            omega
              (arith, c.duplicates, split (is_double fresh), order (is_double fresh), old, free);
        errors = omega (arith, c.errors, split (is_error fresh), order (is_error fresh), old, free);
      };
      unposted = omega (
        arith,
        split (is_posted fresh),
        order (is_posted fresh),
        count_where-unposted fresh rows,
        count_where-is_posted fresh db.rows,
        free,
      );
      same_books = refl;
      same_snapshots = refl;
    }

-- With a key that no staged row has, a call of `stage_upload` that returns adds one open batch, whose
-- counters say how many of its staged rows have issues, are duplicates, or are valid, and how many
-- there are; none of them is posted, and the formal records and the snapshots are as before.
pub stage_upload-Staged :
    (w : Surroundings) (limit : ℕ) (parsers : List Importer) (upload : Upload)
    (given : Option (Option SourceKind)) (actor : Actor) (fresh : ℕ) (db db' : Tables)
    → count_where (λ row. row.batch == fresh) db.rows ≡ 0
    → stage_upload w limit parsers upload given actor fresh db ≡ ok db'
    → Staged fresh db db'
unfolding prepare_rows
stage_upload-Staged w limit parsers upload given actor fresh db db' free h =
    let u = stage_upload-Uploaded w limit parsers upload given actor fresh db db' h in
    subst (Staged fresh db) (sym u.written) (
      write_batch-Staged actor u.kind upload fresh u.rows u.progress db free (
        prepare_from-Counts w u.kind db fresh limit 0 u.parser.parse no_progress u.progress u.rows
          u.prepared))
