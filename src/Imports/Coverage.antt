-- ===== src/Imports/Coverage.antt =====
-- `DataCoveragePeriod` of apps/imports/models.py, and `coverage_matrix` of apps/imports/history.py.
use finance_reconciliation.Prelude.{
  ℕ, zero, suc, ◌+◌, ◌-◌, min, max, Bool, true, false, not, ◌&&◌, ◌||◌, Option, none, some, List,
  [], ◌∷◌, ◌++◌, ltb, find, is_some, ◌==◌, if◌then◌else◌,
}
use finance_reconciliation.Prelude.Text.{Text, codes}

pub data SourceKind : Type 0 where
  input_invoice output_invoice bank wechat : SourceKind

pub data CoverageStatus : Type 0 where
  full partial missing : CoverageStatus

pub record Date : Type 0 where
  pub year : ℕ
  pub month : ℕ
  pub day : ℕ

-- `<` of two dates
abbrev pub is_before : Date → Date → Bool
is_before a b =
    ltb a.year b.year
    || a.year == b.year && (ltb a.month b.month || a.month == b.month && ltb a.day b.day)

pub record DataCoveragePeriod : Type 0 where
  pub year : ℕ
  pub source_kind : SourceKind
  pub status : CoverageStatus
  pub expected_start : Date
  pub expected_end : Date
  pub actual_start : Option Date
  pub actual_end : Option Date
  pub missing_notes : Text

-- The messages of `clean`, in the order in which they are set.
pub data CoverageError : Type 0 where
  expected_reversed missing_has_dates dates_required actual_reversed outside_expected :
      CoverageError

abbrev pub actual_errors : DataCoveragePeriod → Option Date → Option Date → List CoverageError
actual_errors p (some from) (some to) =
    if is_before to from
    then actual_reversed ∷ []
    else if is_before from p.expected_start || is_before p.expected_end to
    then outside_expected ∷ []
    else []
actual_errors p none to = dates_required ∷ []
actual_errors p (some from) none = dates_required ∷ []

abbrev pub status_errors : DataCoveragePeriod → CoverageStatus → List CoverageError
status_errors p missing =
    if is_some p.actual_start || is_some p.actual_end then missing_has_dates ∷ [] else []
status_errors p full = actual_errors p p.actual_start p.actual_end
status_errors p partial = actual_errors p p.actual_start p.actual_end

-- `DataCoveragePeriod.clean`: the errors that it raises, none where it returns.
unfoldable pub clean : DataCoveragePeriod → List CoverageError
clean p =
    (if is_before p.expected_end p.expected_start then expected_reversed ∷ [] else [])
    ++ status_errors p p.status

abbrev pub in_order : DataCoveragePeriod → Option Date → Option Date → Bool
in_order p (some from) (some to) =
    not (is_before to from)
    && not (is_before from p.expected_start)
    && not (is_before p.expected_end to)
in_order p none to = false
in_order p (some from) none = false

abbrev pub status_allowed : DataCoveragePeriod → CoverageStatus → Bool
status_allowed p missing = not (is_some p.actual_start) && not (is_some p.actual_end)
status_allowed p full = in_order p p.actual_start p.actual_end
status_allowed p partial = in_order p p.actual_start p.actual_end

-- The check constraints of the table.
unfoldable pub is_allowed : DataCoveragePeriod → Bool
is_allowed p = not (is_before p.expected_end p.expected_start) && status_allowed p p.status

abbrev pub kind_eq : SourceKind → SourceKind → Bool
kind_eq input_invoice input_invoice = true
kind_eq output_invoice output_invoice = true
kind_eq bank bank = true
kind_eq wechat wechat = true
kind_eq input_invoice output_invoice = false
kind_eq input_invoice bank = false
kind_eq input_invoice wechat = false
kind_eq output_invoice input_invoice = false
kind_eq output_invoice bank = false
kind_eq output_invoice wechat = false
kind_eq bank input_invoice = false
kind_eq bank output_invoice = false
kind_eq bank wechat = false
kind_eq wechat input_invoice = false
kind_eq wechat output_invoice = false
kind_eq wechat bank = false

-- `_missing_period`
unfoldable pub missing_period : ℕ → SourceKind → DataCoveragePeriod
missing_period year source_kind = record {
  year = year;
  source_kind = source_kind;
  status = missing;
  expected_start = record { year = year; month = 1; day = 1 };
  expected_end = record { year = year; month = 12; day = 31 };
  actual_start = none;
  actual_end = none;
  missing_notes = codes "未登记该年度来源资料完整性记录";
}

-- `order_by("year").first()` and `order_by("-year").first()`
abbrev pub first_year : List DataCoveragePeriod → Option ℕ
first_year [] = none
first_year (p ∷ rows) = elim (first_year rows) [ none ↦ some p.year | some y ↦ some (min p.year y) ]

abbrev pub last_year : List DataCoveragePeriod → Option ℕ
last_year [] = none
last_year (p ∷ rows) = elim (last_year rows) [ none ↦ some p.year | some y ↦ some (max p.year y) ]

-- An entry of `matrix`.
pub record Cell : Type 0 where
  pub year : ℕ
  pub source_kind : SourceKind
  pub period : DataCoveragePeriod

-- `periods.get(key) or _missing_period(year, source_kind)`; the table holds a key once.
abbrev pub or_missing : ℕ → SourceKind → Option DataCoveragePeriod → DataCoveragePeriod
or_missing year kind none = missing_period year kind
or_missing year kind (some p) = p

abbrev pub registered : List DataCoveragePeriod → ℕ → SourceKind → Option DataCoveragePeriod
registered rows year kind = find (λ p. p.year == year && kind_eq p.source_kind kind) rows

abbrev pub cell : List DataCoveragePeriod → ℕ → SourceKind → Cell
cell rows year kind = record {
  year = year;
  source_kind = kind;
  period = or_missing year kind (registered rows year kind);
}

-- The loops over so many years from the first, and over `SourceKind.values`.
unfoldable pub matrix_from : List DataCoveragePeriod → ℕ → ℕ → List Cell
matrix_from rows year zero = []
matrix_from rows year (suc years) =
    cell rows year input_invoice
    ∷ cell rows year output_invoice
    ∷ cell rows year bank
    ∷ cell rows year wechat
    ∷ matrix_from rows (year + 1) years

abbrev pub matrix_between : List DataCoveragePeriod → Option ℕ → Option ℕ → List Cell
matrix_between rows none last = []
matrix_between rows (some first) none = []
matrix_between rows (some first) (some last) = matrix_from rows first (last + 1 - first)

-- `coverage_matrix`
unfoldable pub coverage_matrix : List DataCoveragePeriod → List Cell
coverage_matrix rows = matrix_between rows (first_year rows) (last_year rows)
