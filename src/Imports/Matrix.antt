-- ===== src/Imports/Matrix.antt =====
-- What `clean` accepts is what the table accepts, and the matrix has a cell for each year and source.
use mathlib.Core.Path.{transport}
use finance_reconciliation.Prelude.{
  ℕ, zero, suc, ◌+◌, ◌-◌, ◌≡◌, ◌≤◌, ◌<◌, ap, ◌∙◌, min, max, false, ◌&&◌, Option, some, List, [],
  ◌∷◌, arith, find, ◌==◌, Option-cases, Bool-cases, ==_refl, inl, inr,
}
use finance_reconciliation.Imports.Coverage.{
  SourceKind, input_invoice, output_invoice, bank, wechat, DataCoveragePeriod, kind_eq, first_year,
  last_year, Cell, registered, cell, or_missing, matrix_from, coverage_matrix,
}

abbrev pub find_cell : ℕ → SourceKind → List Cell → Option Cell
find_cell year kind cells = find (λ c. c.year == year && kind_eq c.source_kind kind) cells

-- The cells of one year, before others.
abbrev of_year : List DataCoveragePeriod → ℕ → List Cell → List Cell
of_year rows year rest =
    cell rows year input_invoice
    ∷ cell rows year output_invoice
    ∷ cell rows year bank
    ∷ cell rows year wechat
    ∷ rest

in_year :
    (rows : List DataCoveragePeriod) (year : ℕ) (kind : SourceKind) (rest : List Cell)
    → find_cell year kind (of_year rows year rest) ≡ some (cell rows year kind)
in_year rows year input_invoice rest = rw (==_refl year)
in_year rows year output_invoice rest = rw (==_refl year)
in_year rows year bank rest = rw (==_refl year)
in_year rows year wechat rest = rw (==_refl year)

after_year :
    (rows : List DataCoveragePeriod) (first year : ℕ) (kind : SourceKind) (rest : List Cell)
    → (first == year) ≡ false
    → find_cell year kind (of_year rows first rest) ≡ find_cell year kind rest
after_year rows first year kind rest other = rw other

matrix_from-cell :
    (rows : List DataCoveragePeriod) (first years year : ℕ) (kind : SourceKind)
    → first ≤ year
    → year < first + years
    → find_cell year kind (matrix_from rows first years) ≡ some (cell rows year kind)
unfolding matrix_from
matrix_from-cell rows first zero year kind low high = absurd (omega (arith, low, high))
matrix_from-cell rows first (suc years) year kind low high = elim (Bool-cases (first == year)) [
  | inl same ↦
      let e : first ≡ year = ground arith in
      transport
        (ap
          (λ y.
            find_cell y kind (of_year rows first (matrix_from rows (first + 1) years))
            ≡ some (cell rows y kind))
          e)
        (in_year rows first kind (matrix_from rows (first + 1) years))
  | inr other ↦
      after_year rows first year kind (matrix_from rows (first + 1) years) other
      ∙ matrix_from-cell rows (first + 1) years year kind (ground arith) (ground arith)
]

-- A registered year is not before the first one, nor after the last one.
first_year-least :
    (rows : List DataCoveragePeriod) (year : ℕ) (kind : SourceKind) (p : DataCoveragePeriod)
    → registered rows year kind ≡ some p
    → (a : ℕ) × (first_year rows ≡ some a) × (a ≤ year)
first_year-least [] year kind p h = cc
first_year-least (q ∷ rows) year kind p h =
    elim (Bool-cases (q.year == year && kind_eq q.source_kind kind)) [
      | inl hit ↦ elim (Option-cases (first_year rows)) [
        | inl empty ↦ (q.year, rw empty, ground arith)
        | inr found ↦ let (y, e) = found in (min q.year y, rw e, ground arith)
      ]
      | inr miss ↦
          let (a, e, least) = first_year-least rows year kind p (ground arith) in
          (min q.year a, rw e, omega (arith, least))
    ]

last_year-greatest :
    (rows : List DataCoveragePeriod) (year : ℕ) (kind : SourceKind) (p : DataCoveragePeriod)
    → registered rows year kind ≡ some p
    → (b : ℕ) × (last_year rows ≡ some b) × (year ≤ b)
last_year-greatest [] year kind p h = cc
last_year-greatest (q ∷ rows) year kind p h =
    elim (Bool-cases (q.year == year && kind_eq q.source_kind kind)) [
      | inl hit ↦ elim (Option-cases (last_year rows)) [
        | inl empty ↦ (q.year, rw empty, ground arith)
        | inr found ↦ let (y, e) = found in (max q.year y, rw e, ground arith)
      ]
      | inr miss ↦
          let (b, e, greatest) = last_year-greatest rows year kind p (ground arith) in
          (max q.year b, rw e, omega (arith, greatest))
    ]

-- Between the first and the last registered year, the matrix has for each year and source the
-- registered period, or where there is none the one of `_missing_period`.
pub coverage_matrix-cell :
    (rows : List DataCoveragePeriod) (first last year : ℕ) (kind : SourceKind)
    → first_year rows ≡ some first
    → last_year rows ≡ some last
    → first ≤ year
    → year ≤ last
    → find_cell year kind (coverage_matrix rows)
      ≡ some (record {
        year = year;
        source_kind = kind;
        period = or_missing year kind (registered rows year kind);
      })
unfolding coverage_matrix
coverage_matrix-cell rows first last year kind begins ends low high =
    rw (begins, ends)
      (matrix_from-cell rows first (last + 1 - first) year kind low (omega (arith, low, high)))

-- No registered period is left out of the matrix.
pub coverage_matrix-registered :
    (rows : List DataCoveragePeriod) (year : ℕ) (kind : SourceKind) (p : DataCoveragePeriod)
    → registered rows year kind ≡ some p
    → find_cell year kind (coverage_matrix rows)
      ≡ some (record { year = year; source_kind = kind; period = p })
coverage_matrix-registered rows year kind p h =
    let (a, begins, low) = first_year-least rows year kind p h in
    let (b, ends, high) = last_year-greatest rows year kind p h in
    coverage_matrix-cell rows a b year kind begins ends low high
    ∙ ap (λ o. some (record { year = year; source_kind = kind; period = or_missing year kind o })) h
