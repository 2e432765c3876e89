-- ===== src/Reporting/Imported.antt =====
-- The exceptions of apps/reporting/queries.py that come from the imports: `_mapping_issue_exceptions`,
-- `_duplicate_exceptions` and `_history_exceptions`.
use finance_reconciliation.Prelude.{
  ℕ, ◌+◌, ◌*◌, ◌-◌, ◌/◌, ◌%◌, Bool, true, false, not, ◌&&◌, ◌||◌, none, some, List, ◌++◌, map,
  select, any, ltb, leb, ◌==◌, if◌then◌else◌,
}
use finance_reconciliation.Prelude.Text.{Text, codes, text_eq}
use finance_reconciliation.Imports.Coverage.{
  SourceKind, input_invoice, output_invoice, bank, wechat, CoverageStatus, full, partial, missing,
}
use finance_reconciliation.Imports.Rows.{BatchStatus, uploaded, previewed, completed}
use finance_reconciliation.Ledger.{local_date}
use finance_reconciliation.Reporting.Amounts.{StagedEntry, BatchEntry, Period, Records, cutoff}
use finance_reconciliation.Reporting.Suppliers.{sort_by, before_by}
use finance_reconciliation.Reporting.Open.{unknown_party}
use finance_reconciliation.Reporting.Exceptions.{
  counterparty_unknown, duplicate_import, history_incomplete, unmapped_row, duplicate_row,
  duplicate_rows, period_incomplete, batch_incomplete, party_name, imported_material, past_material,
  ExceptionItem,
}

-- `date.year`, in the proleptic Gregorian calendar: years from March, in eras of 400.
unfoldable pub year_of : ℕ → ℕ
year_of day =
    let z = day + 719468 in
    let d = z % 146097 in
    let y = (d - d / 1460 + d / 36524 - d / 146096) / 365 in
    let in_year = d - (365 * y + y / 4 - y / 100) in
    y + z / 146097 * 400 + (if leb 306 in_year then 1 else 0)

abbrev is_unmapped_code : Text → Bool
is_unmapped_code code =
    text_eq code (codes "counterparty") || text_eq code (codes "counterparty_ambiguous")

abbrev pub staged_before : StagedEntry → StagedEntry → Bool
staged_before a b = before_by a.batch a.row_number b.batch b.row_number

abbrev pub batch_before : BatchEntry → BatchEntry → Bool
batch_before a b = before_by a.created_at a.id b.created_at b.id

-- The text of a source kind, by its place in order.
abbrev pub kind_order : SourceKind → ℕ
kind_order bank = 0
kind_order input_invoice = 1
kind_order output_invoice = 2
kind_order wechat = 3

abbrev pub is_full : CoverageStatus → Bool
is_full full = true
is_full partial = false
is_full missing = false

abbrev is_partial : BatchStatus → Bool
is_partial finance_reconciliation.Imports.Rows.partial = true
is_partial uploaded = false
is_partial previewed = false
is_partial completed = false

module _ (records : Records) (as_of : ℕ) where
  abbrev pub unmapped_item : StagedEntry → ExceptionItem
  unmapped_item row = record {
    kind = counterparty_unknown;
    reference_id = row.id;
    occurred_on = none;
    counterparty_name = party_name unknown_party;
    amount = none;
    detail = unmapped_row row.batch row.row_number;
  }

  -- `_mapping_issue_exceptions`
  unfoldable pub mapping_issue_exceptions : List ExceptionItem
  mapping_issue_exceptions = map unmapped_item (
      select (λ row. any is_unmapped_code row.codes)
        (sort_by staged_before
          (select (λ row. ltb row.batch_created_at (cutoff as_of)) records.staged_rows)))

  abbrev pub duplicate_row_item : StagedEntry → ExceptionItem
  duplicate_row_item row = record {
    kind = duplicate_import;
    reference_id = row.id;
    occurred_on = none;
    counterparty_name = imported_material;
    amount = none;
    detail = duplicate_row row.batch row.row_number;
  }

  abbrev pub duplicate_batch_item : BatchEntry → ExceptionItem
  duplicate_batch_item b = record {
    kind = duplicate_import;
    reference_id = b.id;
    occurred_on = some (local_date b.created_at);
    counterparty_name = imported_material;
    amount = none;
    detail = duplicate_rows b.id b.duplicate_rows;
  }

  abbrev pub duplicate_staged : List StagedEntry
  duplicate_staged = sort_by staged_before (
      select (λ row. row.is_duplicate && ltb row.batch_created_at (cutoff as_of))
        records.staged_rows)

  -- The batches that have duplicates, but none of the rows above.
  abbrev pub is_duplicate_batch : BatchEntry → Bool
  is_duplicate_batch b =
      ltb 0 b.duplicate_rows
      && ltb b.created_at (cutoff as_of)
      && not (any (λ row. row.batch == b.id) duplicate_staged)

  -- `_duplicate_exceptions`
  unfoldable pub duplicate_exceptions : List ExceptionItem
  duplicate_exceptions =
      map duplicate_row_item duplicate_staged
      ++ map duplicate_batch_item (sort_by batch_before (select is_duplicate_batch records.batches))

  abbrev pub period_item : Period → ExceptionItem
  period_item p = record {
    kind = history_incomplete;
    reference_id = p.id;
    occurred_on = some p.expected_start;
    counterparty_name = past_material;
    amount = none;
    detail = period_incomplete p.year p.source_kind p.status;
  }

  abbrev pub partial_batch_item : BatchEntry → ExceptionItem
  partial_batch_item b = record {
    kind = history_incomplete;
    reference_id = b.id;
    occurred_on = some (local_date b.created_at);
    counterparty_name = imported_material;
    amount = none;
    detail = batch_incomplete b.id;
  }

  abbrev period_before : Period → Period → Bool
  period_before p q =
      ltb p.year q.year
      || p.year == q.year
        && before_by (kind_order p.source_kind) p.id (kind_order q.source_kind) q.id

  abbrev pub incomplete_periods : List Period
  incomplete_periods =
      sort_by period_before
        (select (λ p. leb p.year (year_of as_of) && not (is_full p.status)) records.periods)

  abbrev pub partial_batches : List BatchEntry
  partial_batches =
      sort_by batch_before
        (select (λ b. is_partial b.status && ltb b.created_at (cutoff as_of)) records.batches)

  -- `_history_exceptions`
  unfoldable pub history_exceptions : List ExceptionItem
  unfolding year_of
  history_exceptions = map period_item incomplete_periods ++ map partial_batch_item partial_batches
