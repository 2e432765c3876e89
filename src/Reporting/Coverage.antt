-- ===== src/Reporting/Coverage.antt =====
-- `supplier_coverage_as_of` of apps/reporting/queries.py: whether the material on the suppliers is complete.
use finance_reconciliation.Prelude.{
  ℕ, zero, suc, ◌+◌, ◌-◌, min, Bool, true, false, not, ◌&&◌, List, [], ◌∷◌, ◌++◌, select, any, leb,
  ◌==◌, if◌then◌else◌,
}
use finance_reconciliation.Imports.Coverage.{
  SourceKind, input_invoice, output_invoice, bank, wechat, kind_eq,
}
use finance_reconciliation.Reporting.Amounts.{Period, Records}
use finance_reconciliation.Reporting.Suppliers.{sort_by, before_by}
use finance_reconciliation.Reporting.Imported.{year_of, kind_order, is_full}

-- The sources in `SUPPLIER_SOURCE_KINDS`.
abbrev pub is_supplier_kind : SourceKind → Bool
is_supplier_kind input_invoice = true
is_supplier_kind output_invoice = false
is_supplier_kind bank = true
is_supplier_kind wechat = true

-- The code of a `SupplierCoverage`, with what its detail lists.
pub data SupplierCoverage : Type 0 where
  -- no period at all
  none_registered : SupplierCoverage
  -- the periods
  incomplete complete : List Period → SupplierCoverage
  -- the years and sources that are not registered
  unregistered : List (ℕ × SourceKind) → SupplierCoverage

abbrev pub period_order : Period → Period → Bool
period_order p q = before_by p.year (kind_order p.source_kind) q.year (kind_order q.source_kind)

-- `min` of the years of a list that starts with a given period.
unfoldable pub earliest_year : ℕ → List Period → ℕ
earliest_year year [] = year
earliest_year year (p ∷ periods) = min p.year (earliest_year year periods)

-- Of one year, the sources sorted.
abbrev pub required_in : ℕ → List (ℕ × SourceKind)
required_in year = (year, bank) ∷ (year, input_invoice) ∷ (year, wechat) ∷ []

-- `required`, of so many years from a given one, sorted.
unfoldable pub required : ℕ → ℕ → List (ℕ × SourceKind)
required zero year = []
required (suc n) year = required_in year ++ required n (year + 1)

abbrev pub is_registered : List Period → ℕ × SourceKind → Bool
is_registered periods (year, kind) = any (λ p. p.year == year && kind_eq p.source_kind kind) periods

-- The answer on the periods, in order.
unfoldable pub coverage_of : ℕ → List Period → SupplierCoverage
unfolding earliest_year required year_of
coverage_of as_of [] = none_registered
coverage_of as_of (first ∷ rest) =
    let periods = first ∷ rest in
    if any (λ p. not (is_full p.status)) periods
    then incomplete periods
    else (let start = earliest_year first.year rest in
        let missing =
          select (λ e. not (is_registered periods e))
            (required (year_of as_of + 1 - start) start) in
        elim missing [ [] ↦ complete periods | e ∷ es ↦ unregistered (e ∷ es) ])

-- The filter of its query.
abbrev pub is_considered : ℕ → Period → Bool
is_considered as_of p = is_supplier_kind p.source_kind && leb p.expected_start as_of

-- `supplier_coverage_as_of`
unfoldable pub supplier_coverage_as_of : Records → ℕ → SupplierCoverage
unfolding coverage_of
supplier_coverage_as_of records as_of =
    coverage_of as_of (sort_by period_order (select (is_considered as_of) records.periods))
