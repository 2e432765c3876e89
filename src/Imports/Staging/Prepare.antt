-- ===== src/Imports/Staging/Prepare.antt =====
-- `_prepare_staged_row` and `_prepare_rows` of apps/imports/services.py.
use finance_reconciliation.Prelude.{
  ℕ, ◌+◌, Bool, true, false, Option, none, some, List, [], ◌∷◌, ◌++◌, ltb, if◌then◌else◌,
}
use finance_reconciliation.Ledger.{Invoice, InvoiceStatus}
use finance_reconciliation.Imports.Coverage.{SourceKind}
use finance_reconciliation.Imports.Rows.{
  Choice, known, unknown, Normalized, invoice, money, RowIssue, raw_data_issue, RawData, json_value,
  no_json, ParsedRow, serialize_normalized, period_date,
}
use finance_reconciliation.Imports.Checks.{validate_parsed_row}
use finance_reconciliation.Imports.Tables.{
  ok, err, raise_if, ◌>>=◌, ◌>>◌, too_many_rows, ImportFailure, Result, Tables, Surroundings,
}
use finance_reconciliation.Imports.Disposition.{
  Disposition, new, duplicate, conflict, status_update, invoice_rows_disposition,
  invoice_conflict_issue, DuplicateKey, key_eq, formal_disposition_for, duplicate_key,
}

-- What `parser.parse` yields, row by row; it may raise between two rows.
pub data ParserOutput : Type 0 where
  finished : ParserOutput
  failed : ImportFailure → ParserOutput
  yields : ParsedRow → ParserOutput → ParserOutput

-- `staged_row`, before it has a batch.
pub record PreparedRow : Type 0 where
  pub row_number : ℕ
  pub raw_data : RawData
  pub normalized_data : Option Normalized
  pub issues : List RowIssue
  pub is_duplicate : Bool

-- The variables of `_prepare_rows`: `counters`, `seen_rows` and `period_dates`.
pub record Progress : Type 0 where
  pub total : ℕ
  pub valid : ℕ
  pub duplicates : ℕ
  pub errors : ℕ
  pub seen_rows : List (DuplicateKey × Normalized)
  pub period_dates : List ℕ

abbrev pub no_progress : Progress
no_progress = record {
  total = 0;
  valid = 0;
  duplicates = 0;
  errors = 0;
  seen_rows = [];
  period_dates = [];
}

-- `seen_rows.get(key)`; the latest entry of a key stands first.
abbrev pub seen : DuplicateKey → List (DuplicateKey × Normalized) → Option Normalized
seen key [] = none
seen key ((k, r) ∷ rows) = let later = seen key rows in if key_eq k key then some r else later

-- `_json_safe_raw_data`
abbrev pub raw_data_issues : RawData → List RowIssue
raw_data_issues (json_value n) = []
raw_data_issues (no_json n) = raw_data_issue ∷ []

abbrev pub status_of : Normalized → Choice InvoiceStatus
status_of (invoice r) = r.status
status_of (money r) = unknown []

abbrev status_of_existing : Option Invoice → Choice InvoiceStatus
status_of_existing none = unknown []
status_of_existing (some i) = known i.status

-- Against a row before it with the same key, which is of the same type.
abbrev pub against_row : Normalized → Normalized → Disposition × Choice InvoiceStatus
against_row (invoice previous) (invoice r) = (invoice_rows_disposition previous r, previous.status)
against_row (money previous) (invoice r) = (conflict, unknown [])
against_row previous (money r) = (duplicate, unknown [])

-- The issues of a conflict.
abbrev pub conflict_issues : Disposition × Choice InvoiceStatus → Normalized → List RowIssue
conflict_issues (conflict, current) r = invoice_conflict_issue current (status_of r) ∷ []
conflict_issues (new, current) r = []
conflict_issues (duplicate, current) r = []
conflict_issues (status_update, current) r = []

abbrev pub is_duplicated : Disposition → Bool
is_duplicated duplicate = true
is_duplicated new = false
is_duplicated conflict = false
is_duplicated status_update = false

-- `if disposition != "conflict": seen_rows[key] = normalized`
abbrev pub remember :
    Disposition
    → DuplicateKey
    → Normalized
    → List (DuplicateKey × Normalized)
    → List (DuplicateKey × Normalized)
remember conflict key r rows = rows
remember new key r rows = (key, r) ∷ rows
remember duplicate key r rows = (key, r) ∷ rows
remember status_update key r rows = (key, r) ∷ rows

abbrev add_date : Option ℕ → List ℕ → List ℕ
add_date none dates = dates
add_date (some d) dates = dates ++ d ∷ []

-- The three counters that `_prepare_staged_row` may add to, and `total`.
abbrev pub count_row : List RowIssue → Bool → Progress → Progress
count_row (issue ∷ issues) dup p = record p { total = p.total + 1; errors = p.errors + 1 }
count_row [] true p = record p { total = p.total + 1; duplicates = p.duplicates + 1 }
count_row [] false p = record p { total = p.total + 1; valid = p.valid + 1 }

abbrev pub stored_normalized : List RowIssue → Option Normalized → Option Normalized
stored_normalized [] none = none
stored_normalized [] (some r) = some (serialize_normalized r)
stored_normalized (issue ∷ issues) r = none

abbrev pub prepared : ParsedRow → List RowIssue → Bool → PreparedRow
prepared row issues dup = record {
  row_number = row.row_number;
  raw_data = row.raw_data;
  normalized_data = stored_normalized issues row.normalized;
  issues = issues;
  is_duplicate = dup;
}

-- What a disposition makes of a row that had no issues.
abbrev pub disposed :
    ParsedRow
    → Normalized
    → DuplicateKey
    → Disposition × Choice InvoiceStatus
    → Progress
    → PreparedRow × Progress
disposed row r key d p =
    let issues = conflict_issues d r in
    (
      prepared row issues (is_duplicated d.0),
      count_row issues (is_duplicated d.0) (record p {
        seen_rows = remember d.0 key r p.seen_rows;
        period_dates = add_date (period_date r) p.period_dates;
      }),
    )

module _ (w : Surroundings) (kind : SourceKind) (db : Tables) where
  -- The disposition of a row that has no issues, and the status that it is compared with.
  abbrev pub disposition_among :
      Normalized → Option Normalized → Result (Disposition × Choice InvoiceStatus)
  disposition_among r none = do
    found ← formal_disposition_for w.library db.rows db.books r
    ok (found.0, status_of_existing found.1)
  disposition_among r (some previous) = ok (against_row previous r)

  abbrev pub prepare_disposed :
      ParsedRow
      → Normalized
      → DuplicateKey
      → Option Normalized
      → Progress
      → Result (PreparedRow × Progress)
  prepare_disposed row r key previous p = do
    d ← disposition_among r previous
    ok (disposed row r key d p)

  abbrev pub prepare_clean :
      ParsedRow → Option Normalized → Progress → Result (PreparedRow × Progress)
  prepare_clean row none p = ok (prepared row [] false, count_row [] false p)
  prepare_clean row (some r) p = do
    key ← duplicate_key w.library r
    prepare_disposed row r key (seen key p.seen_rows) p

  abbrev pub prepare_with : ParsedRow → List RowIssue → Progress → Result (PreparedRow × Progress)
  prepare_with row [] p = prepare_clean row row.normalized p
  prepare_with row (issue ∷ issues) p =
      ok (prepared row (issue ∷ issues) false, count_row (issue ∷ issues) false p)

  -- `_prepare_staged_row`
  unfoldable pub prepare_staged_row : ParsedRow → Progress → Result (PreparedRow × Progress)
  unfolding formal_disposition_for duplicate_key validate_parsed_row invoice_rows_disposition
      invoice_conflict_issue serialize_normalized
  prepare_staged_row row p =
      prepare_with row
        (raw_data_issues row.raw_data ++ validate_parsed_row w.library kind row db.registers) p

  -- The loop of `_prepare_rows`, `count` rows being done. `limit` is `settings.IMPORT_MAX_ROWS`.
  unfoldable pub prepare_from :
      ℕ → ℕ → ParserOutput → Progress → Result (List PreparedRow × Progress)
  unfolding prepare_staged_row
  prepare_from limit count finished p = ok ([], p)
  prepare_from limit count (failed failure) p = err failure
  prepare_from limit count (yields row more) p = do
    raise_if (ltb limit (count + 1)) too_many_rows
    (staged, p₁) ← prepare_staged_row row p
    (rest, p₂) ← prepare_from limit (count + 1) more p₁
    ok (staged ∷ rest, p₂)

  -- `_prepare_rows`
  unfoldable pub prepare_rows : ℕ → ParserOutput → Result (List PreparedRow × Progress)
  unfolding prepare_from
  prepare_rows limit parsed = prepare_from limit 0 parsed no_progress
