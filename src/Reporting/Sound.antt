-- ===== src/Reporting/Sound.antt =====
-- What the items of `exception_items` (apps/reporting/queries.py) may say.
pub mod Opened
pub mod Stale
pub mod Imported
pub mod Listed
use finance_reconciliation.Prelude.{
  ℕ, ◌+◌, ◌≡◌, refl, Bool, true, false, not, ◌&&◌, ◌||◌, Option, none, some, List, [], ◌∷◌, ◌++◌,
  select, ltb, leb, All, is_some, if◌then◌else◌,
}
use finance_reconciliation.Prelude.Int.{ℤ}
use finance_reconciliation.Reporting.Sorting.{
  sum_by, sum_by-append, sum_by-sort_by, sum_by-select, sum_by-map, All-sort_by, All-select,
  All-map, All-++, All-step, All-select_both,
}
use finance_reconciliation.Reporting.Amounts.{is_positive}
use finance_reconciliation.Reporting.Exceptions.{
  ExceptionType, receivable_open, payable_open, inflow_unmatched, outflow_unmatched,
  counterparty_unknown, reconciliation_difference, duplicate_import, red_with_active_allocation,
  stale_open_item, history_incomplete, ExceptionItem,
}

abbrev pub has_amount : Option ℤ → Bool
has_amount none = false
has_amount (some z) = is_positive z

abbrev pub is_by : ℕ → Option ℕ → Bool
is_by day none = false
is_by day (some d) = leb d day

abbrev pub is_older_than_90 : ℕ → Option ℕ → Bool
is_older_than_90 day none = false
is_older_than_90 day (some d) = ltb (d + 90) day

-- An amount that is still open, of the day or before it.
abbrev pub is_open_at : ℕ → Option ℤ → Option ℕ → Bool
is_open_at as_of amount day = has_amount amount && is_by as_of day

-- What an item of a day may say, by its kind.
abbrev pub allows : ℕ → ExceptionType → Option ℤ → Option ℕ → Bool
allows as_of receivable_open amount day = is_open_at as_of amount day
allows as_of payable_open amount day = is_open_at as_of amount day
allows as_of inflow_unmatched amount day = is_open_at as_of amount day
allows as_of outflow_unmatched amount day = is_open_at as_of amount day
allows as_of counterparty_unknown amount day =
    is_open_at as_of amount day || not (is_some amount) && not (is_some day)
allows as_of reconciliation_difference amount day = is_open_at as_of amount day
allows as_of duplicate_import amount day =
    not (is_some amount) && (is_by as_of day || not (is_some day))
allows as_of red_with_active_allocation amount day = is_open_at as_of amount day
allows as_of stale_open_item amount day = has_amount amount && is_older_than_90 as_of day
allows as_of history_incomplete amount day = not (is_some amount)

abbrev pub is_sound : ℕ → ExceptionItem → Bool
is_sound as_of t = allows as_of t.kind t.amount t.occurred_on

abbrev pub Sound : ℕ → List ExceptionItem → Type 0
Sound as_of = All (λ t. is_sound as_of t ≡ true)

pub Sound-++ :
    (as_of : ℕ) (xs ys : List ExceptionItem)
    → Sound as_of xs
    → Sound as_of ys
    → Sound as_of (xs ++ ys)
Sound-++ as_of xs ys h k = All-++ (λ t. is_sound as_of t ≡ true) xs ys h k
