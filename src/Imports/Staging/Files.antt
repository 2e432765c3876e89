-- ===== src/Imports/Staging/Files.antt =====
-- `stage_upload` of apps/imports/services.py, with `ImporterRegistry.detect` of
-- apps/imports/registry.py.
use finance_reconciliation.Prelude.{
  ℕ, min, max, Bool, false, ◌||◌, Option, none, some, List, [], ◌∷◌, ◌++◌, map, select, any, leb,
  ◌==◌, if◌then◌else◌,
}
use finance_reconciliation.Prelude.Text.{Text, text_eq}
use finance_reconciliation.Accounts.Roles.{Actor, is_finance_actor}
use finance_reconciliation.Imports.Coverage.{SourceKind, kind_eq}
use finance_reconciliation.Imports.Rows.{previewed, ImportBatch, StagedRow}
use finance_reconciliation.Imports.Tables.{
  ok, err, guard, raise_if, or_raise, ◌>>=◌, ◌>>◌, permission_denied, duplicate_source_file,
  unsupported_template, bad_upload, kind_not_supported, kind_not_detected, kind_not_recognised,
  bad_source_kind, integrity_error, Result, ImportResult, import_staged, Tables, Surroundings,
}
use finance_reconciliation.Imports.Staging.Prepare.{
  PreparedRow, Progress, ParserOutput, prepare_rows,
}

-- The `Importer` protocol, for one file: `infer_source_kind` is `none` where the parser has no such
-- method, and its answer is `none` where that is no source kind.
pub record Importer : Type 0 where
  pub source_kinds : List SourceKind
  pub supports : Text → List Text → Bool
  pub parse : ParserOutput
  pub infer_source_kind : Option (Result (Option SourceKind))

-- A file: what `validate_upload_signature`, `sha256_file` and `_read_headers` find in it.
pub record Upload : Type 0 where
  pub name : Text
  pub is_accepted : Bool
  pub sha256 : Text
  pub headers : Result (List Text)
  pub size : ℕ

abbrev only : List Importer → Result Importer
only [] = err unsupported_template
only (p ∷ []) = ok p
only (p ∷ q ∷ more) = err unsupported_template

-- `ImporterRegistry.detect`
unfoldable pub detect : List Importer → Text → List Text → Result Importer
detect parsers name headers = only (select (λ p. p.supports name headers) parsers)

abbrev pub supports_kind : SourceKind → List SourceKind → Bool
supports_kind kind kinds = any (kind_eq kind) kinds

abbrev inferred : List SourceKind → Option (Result (Option SourceKind)) → Result SourceKind
inferred kinds none = err kind_not_detected
inferred kinds (some answer) = do
  found ← answer
  kind ← or_raise found bad_source_kind
  guard (supports_kind kind kinds) kind_not_recognised
  ok kind

abbrev detect_among : List SourceKind → Importer → Result SourceKind
detect_among (kind ∷ []) parser = ok kind
detect_among [] parser = inferred [] parser.infer_source_kind
detect_among (k ∷ l ∷ kinds) parser = inferred (k ∷ l ∷ kinds) parser.infer_source_kind

-- `_detect_source_kind`
unfoldable pub detect_source_kind : Importer → Result SourceKind
detect_source_kind parser = detect_among parser.source_kinds parser

-- The choice of the source kind in `stage_upload`; the argument is `none` where the caller gives no
-- kind, and `some none` where it gives what is none (`_validate_source_kind`).
unfoldable pub chosen_kind : Importer → Option (Option SourceKind) → Result SourceKind
unfolding detect_source_kind
chosen_kind parser none = detect_source_kind parser
chosen_kind parser (some given) = do
  kind ← or_raise given bad_source_kind
  guard (supports_kind kind parser.source_kinds) kind_not_supported
  ok kind

abbrev least : List ℕ → Option ℕ
least [] = none
least (d ∷ ds) = elim (least ds) [ none ↦ some d | some e ↦ some (min d e) ]

abbrev greatest : List ℕ → Option ℕ
greatest [] = none
greatest (d ∷ ds) = elim (greatest ds) [ none ↦ some d | some e ↦ some (max d e) ]

abbrev pub staged_row : ℕ → PreparedRow → StagedRow
staged_row batch r = record {
  batch = batch;
  row_number = r.row_number;
  raw_data = r.raw_data;
  normalized_data = r.normalized_data;
  issues = r.issues;
  is_duplicate = r.is_duplicate;
  posted_at = none;
}

-- The table of staged rows lists those of a batch by their numbers.
abbrev pub insert_row : StagedRow → List StagedRow → List StagedRow
insert_row r [] = r ∷ []
insert_row r (s ∷ rows) =
    let rest = insert_row r rows in if leb r.row_number s.row_number then r ∷ s ∷ rows else s ∷ rest

abbrev pub by_number : List StagedRow → List StagedRow
by_number [] = []
by_number (r ∷ rows) = insert_row r (by_number rows)

-- `uniq_staged_row_number`
abbrev pub numbers_repeat : List PreparedRow → Bool
numbers_repeat [] = false
numbers_repeat (r ∷ rows) = any (λ s. s.row_number == r.row_number) rows || numbers_repeat rows

abbrev pub new_batch : Actor → SourceKind → ℕ → Progress → ImportBatch
new_batch actor kind fresh p = record {
  id = fresh;
  source_kind = kind;
  status = previewed;
  total_rows = p.total;
  valid_rows = p.valid;
  duplicate_rows = p.duplicates;
  error_rows = p.errors;
  period_start = least p.period_dates;
  period_end = greatest p.period_dates;
  created_by = actor.pk;
  confirmed_at = none;
}

abbrev pub staged_result : ImportBatch → ImportResult
staged_result b = record {
  batch_id = b.id;
  posted_rows = 0;
  duplicate_rows = b.duplicate_rows;
  error_rows = b.error_rows;
}

-- What `stage_upload` writes in its transaction.
unfoldable pub write_batch :
    Actor → SourceKind → Upload → ℕ → List PreparedRow → Progress → Tables → Tables
write_batch actor kind upload fresh prepared p db =
    let batch = new_batch actor kind fresh p in
    record db {
      files =
          db.files
          ++ record {
            batch = fresh;
            original_name = upload.name;
            sha256 = upload.sha256;
            size = upload.size;
          }
            ∷ [];
      batches = db.batches ++ batch ∷ [];
      rows = db.rows ++ by_number (map (staged_row fresh) prepared);
      audit =
          db.audit
          ++ record {
            actor = actor.pk;
            action = import_staged (staged_result batch);
            target_id = fresh;
          }
            ∷ [];
    }

-- `stage_upload`; `fresh` is the key that `uuid4` draws for the batch.
unfoldable pub stage_upload :
    Surroundings
    → ℕ
    → List Importer
    → Upload
    → Option (Option SourceKind)
    → Actor
    → ℕ
    → Tables
    → Result Tables
unfolding is_finance_actor detect chosen_kind prepare_rows write_batch
stage_upload w limit parsers upload given actor fresh db = do
  guard (is_finance_actor actor db.directory) permission_denied
  guard upload.is_accepted bad_upload
  raise_if (any (λ f. text_eq f.sha256 upload.sha256) db.files) duplicate_source_file
  headers ← upload.headers
  parser ← detect parsers upload.name headers
  kind ← chosen_kind parser given
  (prepared, p) ← prepare_rows w kind db limit parser.parse
  raise_if (numbers_repeat prepared) integrity_error
  ok (write_batch actor kind upload fresh prepared p db)
