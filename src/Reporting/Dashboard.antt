-- ===== src/Reporting/Dashboard.antt =====
-- apps/reporting/dashboard.py: the figures of a month.
use finance_reconciliation.Prelude.{
  ℕ, zero, suc, ◌+◌, ◌*◌, ◌-◌, ◌/◌, ◌%◌, Bool, true, false, not, ◌&&◌, ◌||◌, Option, none, some,
  List, [], ◌∷◌, map, select, any, length, ltb, leb, sum_where, ◌==◌, if◌then◌else◌,
}
use finance_reconciliation.Prelude.Int.{ℤ}
use finance_reconciliation.Imports.Matching.{FundingAccount}
use finance_reconciliation.Imports.Tables.{AccountBalanceSnapshot}
use finance_reconciliation.Ledger.{
  MoneyTransaction, MoneyDirection, inflow, outflow, money_direction_eq, day_length, local_offset,
  local_date,
}
use finance_reconciliation.Reporting.Amounts.{
  Records, cutoff, Aging, days_0_30, days_31_60, days_61_90, days_over_90,
}
use finance_reconciliation.Reporting.Sorting.{sum_by}
use finance_reconciliation.Reporting.Open.{OpenInvoiceRow, receivables_as_of, payables_as_of}
use finance_reconciliation.Reporting.Exceptions.{ExceptionType}
use finance_reconciliation.Reporting.Differences.{sum_ℤ}
use finance_reconciliation.Reporting.Imported.{year_of, is_full, partial_batches}
use finance_reconciliation.Reporting.Items.{kind_index, exception_items}

pub record DailyCashflow : Type 0 where
  pub date : ℕ
  pub inflow : ℕ
  pub outflow : ℕ

pub data Due : Type 0 where
  overdue within_7 days_8_30 over_30 : Due

pub record DashboardPayload : Type 0 where
  pub current_funds : Option ℤ
  pub month_inflow : ℕ
  pub month_outflow : ℕ
  pub receivables : ℤ
  pub overdue_receivables : ℤ
  pub payables : ℤ
  pub due_within_7_days : ℤ
  pub daily_cashflow : List DailyCashflow
  -- the amount of each label
  pub receivable_aging : Aging → ℤ
  pub payable_due_buckets : Due → ℤ
  pub exception_counts : ExceptionType → ℕ
  pub data_incomplete : Bool
  pub incomplete_batch_ids : List ℕ

abbrev is_leap : ℕ → Bool
is_leap year = year % 4 == 0 && not (year % 100 == 0) || year % 400 == 0

-- `_month_bounds` of a day, by the calendar of `year_of`: the first and the last day of its month.
unfoldable pub month_bounds : ℕ → ℕ × ℕ
month_bounds day =
    let z = day + 719468 in
    let d = z % 146097 in
    let y = (d - d / 1460 + d / 36524 - d / 146096) / 365 in
    let in_year = d - (365 * y + y / 4 - y / 100) in
    let month = (5 * in_year + 2) / 153 in
    let start = day - (in_year - (153 * month + 2) / 5) in
    let days =
      if month == 11
      then if is_leap (y + z / 146097 * 400 + 1) then 29 else 28
      else (153 * (month + 1) + 2) / 5 - (153 * month + 2) / 5 in
    (start, start + days - 1)

-- `_cutoff` of the day before.
abbrev pub opening : ℕ → ℕ
opening day = day * day_length - local_offset

-- The tables that only the dashboard reads.
pub record Funds : Type 0 where
  pub accounts : List FundingAccount
  pub snapshots : List AccountBalanceSnapshot

module _ (transactions : List MoneyTransaction) (start end_day : ℕ) where
  abbrev pub in_month : MoneyTransaction → Bool
  in_month m = leb (opening start) m.occurred_at && ltb m.occurred_at (cutoff end_day)

  -- `totals.get((day, direction), MONEY_ZERO)`
  abbrev pub day_total : ℕ → MoneyDirection → ℕ
  day_total day direction =
      sum_where
        (λ m.
          in_month m
          && (local_date m.occurred_at == day && money_direction_eq m.direction direction))
        (λ m. m.amount) transactions

  -- The loop of `_cashflow`, of so many days from a given one.
  unfoldable pub daily : ℕ → ℕ → List DailyCashflow
  unfolding cutoff local_date
  daily zero day = []
  daily (suc n) day =
      record { date = day; inflow = day_total day inflow; outflow = day_total day outflow }
      ∷ daily n (day + 1)

  -- `_cashflow`
  unfoldable pub cashflow : List DailyCashflow
  unfolding daily
  cashflow = daily (end_day + 1 - start) start

-- The latest of the snapshots of an account before an instant.
abbrev pub latest_balance : ℕ → ℕ → List AccountBalanceSnapshot → Option AccountBalanceSnapshot
latest_balance account before [] = none
latest_balance account before (s ∷ snapshots) =
    let rest = latest_balance account before snapshots in
    if s.account == account && ltb s.as_of before
    then elim rest [ none ↦ some s | some t ↦ if leb s.as_of t.as_of then some t else some s ]
    else rest

abbrev known_balances : List (Option AccountBalanceSnapshot) → List ℤ
known_balances [] = []
known_balances (none ∷ found) = known_balances found
known_balances (some s ∷ found) = s.balance ∷ known_balances found

abbrev is_unknown : Option AccountBalanceSnapshot → Bool
is_unknown none = true
is_unknown (some s) = false

-- The snapshots of `_current_funds`, of the active accounts.
abbrev latest_balances : Funds → ℕ → List (Option AccountBalanceSnapshot)
latest_balances funds as_of =
    map (λ a. latest_balance a.id (cutoff as_of) funds.snapshots)
      (select (λ a. a.active) funds.accounts)

abbrev sum_known : List ℤ → Option ℤ
sum_known [] = none
sum_known (z ∷ zs) = some (sum_ℤ (z ∷ zs))

-- `_current_funds`
unfoldable pub current_funds : Funds → ℕ → Option ℤ × Bool
unfolding cutoff
current_funds funds as_of =
    let balances = latest_balances funds as_of in
    (sum_known (known_balances balances), any is_unknown balances)

-- `due_date or issue_date`
abbrev due_or : ℕ → Option ℕ → ℕ
due_or issue_date none = issue_date
due_or issue_date (some due) = due

-- `_due_label`
unfoldable pub due_label : Option ℕ → ℕ → ℕ → Due
due_label due_date issue_date as_of =
    let day = due_or issue_date due_date in
    if ltb day as_of
    then overdue
    else if leb (day - as_of) 7
    then within_7
    else if leb (day - as_of) 30
    then days_8_30
    else over_30

abbrev pub aging_eq : Aging → Aging → Bool
aging_eq days_0_30 days_0_30 = true
aging_eq days_31_60 days_31_60 = true
aging_eq days_61_90 days_61_90 = true
aging_eq days_over_90 days_over_90 = true
aging_eq a b = false

abbrev pub due_eq : Due → Due → Bool
due_eq overdue overdue = true
due_eq within_7 within_7 = true
due_eq days_8_30 days_8_30 = true
due_eq over_30 over_30 = true
due_eq a b = false

-- The sum of the open amounts of the rows that pass a test.
abbrev pub open_where : (OpenInvoiceRow → Bool) → List OpenInvoiceRow → ℤ
open_where p rows = sum_ℤ (map (λ r. r.open_amount) (select p rows))

abbrev is_overdue : ℕ → OpenInvoiceRow → Bool
is_overdue as_of r = ltb (due_or r.issue_date r.due_date) as_of

-- `dashboard_payload`
unfoldable pub dashboard_payload : Records → Funds → ℕ → DashboardPayload
unfolding month_bounds cashflow current_funds due_label receivables_as_of payables_as_of year_of
    exception_items
dashboard_payload records funds month =
    let start = (month_bounds month).0 in
    let as_of = (month_bounds month).1 in
    let days = cashflow records.transactions start as_of in
    let receivable_rows = receivables_as_of records as_of in
    let payable_rows = payables_as_of records as_of in
    let due : Due → ℤ = λ label.
      open_where (λ r. due_eq (due_label r.due_date r.issue_date as_of) label) payable_rows in
    let incomplete = map (λ b. b.id) (partial_batches records as_of) in
    let coverage_incomplete =
      any (λ p. leb p.year (year_of as_of) && not (is_full p.status)) records.periods in
    let held = current_funds funds as_of in
    record {
      current_funds = held.0;
      month_inflow = sum_by (λ d. d.inflow) days;
      month_outflow = sum_by (λ d. d.outflow) days;
      receivables = sum_ℤ (map (λ r. r.open_amount) receivable_rows);
      overdue_receivables = open_where (is_overdue as_of) receivable_rows;
      payables = sum_ℤ (map (λ r. r.open_amount) payable_rows);
      due_within_7_days = due within_7;
      daily_cashflow = days;
      receivable_aging = λ label. open_where (λ r. aging_eq r.aging label) receivable_rows;
      payable_due_buckets = due;
      exception_counts = λ kind.
          length
            (select (λ t. kind_index t.kind == kind_index kind) (exception_items records as_of));
      data_incomplete = any (λ k. true) incomplete || coverage_incomplete || held.1;
      incomplete_batch_ids = incomplete;
    }
