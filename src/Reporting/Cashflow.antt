-- ===== src/Reporting/Cashflow.antt =====
-- The cash flow of a month in apps/reporting/dashboard.py against the table of the payments.
use finance_reconciliation.Prelude.{
  ℕ, zero, suc, ◌+◌, ◌-◌, ◌≡◌, refl, ◌∙◌, Bool, ◌&&◌, List, [], ◌∷◌, sum_where, arith, ltb, leb,
  if◌then◌else◌,
}
use finance_reconciliation.Ledger.{
  MoneyTransaction, MoneyDirection, inflow, outflow, money_direction_eq, local_date,
}
use finance_reconciliation.Reporting.Amounts.{Records}
use finance_reconciliation.Reporting.Sorting.{sum_by}
use finance_reconciliation.Reporting.Present.{cutoff-local_date}
use finance_reconciliation.Reporting.Dashboard.{
  Funds, month_bounds, opening, in_month, day_total, daily, cashflow, dashboard_payload,
}

-- What the days of a span add up to, in one direction.
abbrev span_total : List MoneyTransaction → ℕ → ℕ → MoneyDirection → ℕ → ℕ → ℕ
span_total ms start end_day direction zero day = 0
span_total ms start end_day direction (suc n) day =
    day_total ms start end_day day direction + span_total ms start end_day direction n (day + 1)

abbrev in_span : ℕ → ℕ → MoneyTransaction → Bool
in_span day n m = leb day (local_date m.occurred_at) && ltb (local_date m.occurred_at) (day + n)

-- What one payment adds to a span.
abbrev share : ℕ → ℕ → MoneyDirection → ℕ → ℕ → MoneyTransaction → ℕ
share start end_day direction day n m =
    if in_month [] start end_day m && (in_span day n m && money_direction_eq m.direction direction)
    then m.amount
    else 0

span_total-nothing :
    (start end_day : ℕ) (direction : MoneyDirection) (n day : ℕ)
    → span_total [] start end_day direction n day ≡ 0
span_total-nothing start end_day direction zero day = refl
span_total-nothing start end_day direction (suc n) day =
    omega (arith, span_total-nothing start end_day direction n (day + 1))

span_total-step :
    (m : MoneyTransaction) (ms : List MoneyTransaction) (start end_day : ℕ)
    (direction : MoneyDirection) (n day : ℕ)
    → span_total (m ∷ ms) start end_day direction n day
      ≡ share start end_day direction day n m + span_total ms start end_day direction n day
span_total-step m ms start end_day direction zero day = ground arith
span_total-step m ms start end_day direction (suc n) day =
    ground (arith, span_total-step m ms start end_day direction n (day + 1))

-- A payment of a direction, from one local date to another.
abbrev pub is_between : ℕ → ℕ → MoneyDirection → MoneyTransaction → Bool
is_between start end_day direction m =
    leb start (local_date m.occurred_at)
    && leb (local_date m.occurred_at) end_day
    && money_direction_eq m.direction direction

opening-local_date : (t start : ℕ) → leb (opening start) t ≡ leb start (local_date t)
unfolding local_date
opening-local_date t start = ground arith

share-is_between :
    (m : MoneyTransaction) (start end_day : ℕ) (direction : MoneyDirection)
    → share start end_day direction start (end_day + 1 - start) m
      ≡ (if is_between start end_day direction m then m.amount else 0)
share-is_between m start end_day direction =
    ground (arith, opening-local_date m.occurred_at start, cutoff-local_date m.occurred_at end_day)

span_total-total :
    (ms : List MoneyTransaction) (start end_day : ℕ) (direction : MoneyDirection)
    → span_total ms start end_day direction (end_day + 1 - start) start
      ≡ sum_where (is_between start end_day direction) (λ m. m.amount) ms
span_total-total [] start end_day direction =
    span_total-nothing start end_day direction (end_day + 1 - start) start
span_total-total (m ∷ ms) start end_day direction =
    let here = share-is_between m start end_day direction in
    let step = span_total-step m ms start end_day direction (end_day + 1 - start) start in
    let rest = span_total-total ms start end_day direction in cc

daily-span_total :
    (ms : List MoneyTransaction) (start end_day n day : ℕ)
    → (sum_by (λ d. d.inflow) (daily ms start end_day n day)
        ≡ span_total ms start end_day inflow n day)
      × (sum_by (λ d. d.outflow) (daily ms start end_day n day)
          ≡ span_total ms start end_day outflow n day)
unfolding daily
daily-span_total ms start end_day zero day = (refl, refl)
daily-span_total ms start end_day (suc n) day =
    omega (arith, daily-span_total ms start end_day n (day + 1))

-- The inflow and the outflow that the dashboard shows for a month are the sums of the payments of that
-- direction whose local date is between the first and the last day of the month.
pub dashboard_payload-cashflow :
    (records : Records) (funds : Funds) (month : ℕ)
    → let first = (month_bounds month).0 in
      let last = (month_bounds month).1 in
      ((dashboard_payload records funds month).month_inflow
        ≡ sum_where (is_between first last inflow) (λ m. m.amount) records.transactions)
      × ((dashboard_payload records funds month).month_outflow
          ≡ sum_where (is_between first last outflow) (λ m. m.amount) records.transactions)
unfolding dashboard_payload cashflow
dashboard_payload-cashflow records funds month =
    let first = (month_bounds month).0 in
    let last = (month_bounds month).1 in
    let days = daily-span_total records.transactions first last (last + 1 - first) first in
    (
      days.0 ∙ span_total-total records.transactions first last inflow,
      days.1 ∙ span_total-total records.transactions first last outflow,
    )
