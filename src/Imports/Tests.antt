-- ===== src/Imports/Tests.antt =====
-- A matrix of three years, and an instance of the theorem on the validation of a period.
use finance_reconciliation.Prelude.{ℕ, ◌≡◌, refl, some, List, [], ◌∷◌}
use finance_reconciliation.Imports.Coverage.{
  input_invoice, bank, full, DataCoveragePeriod, missing_period, coverage_matrix, matrix_from,
}
use finance_reconciliation.Imports.Matrix.{find_cell}

abbrev complete : ℕ → DataCoveragePeriod
complete year = record {
  year = year;
  source_kind = bank;
  status = full;
  expected_start = record { year = year; month = 1; day = 1 };
  expected_end = record { year = year; month = 12; day = 31 };
  actual_start = some (record { year = year; month = 1; day = 3 });
  actual_end = some (record { year = year; month = 12; day = 30 });
  missing_notes = [];
}

abbrev rows : List DataCoveragePeriod
rows = complete 2024 ∷ complete 2022 ∷ []

coverage_matrix-missing :
    find_cell 2023 input_invoice (coverage_matrix rows)
    ≡ some (record {
      year = 2023;
      source_kind = input_invoice;
      period = missing_period 2023 input_invoice;
    })
unfolding coverage_matrix matrix_from
coverage_matrix-missing = refl
