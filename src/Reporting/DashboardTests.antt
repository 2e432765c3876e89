-- ===== src/Reporting/DashboardTests.antt =====
-- The dashboard of a month with one payment, and instances of its theorems.
use finance_reconciliation.Prelude.{◌≡◌, refl, []}
use finance_reconciliation.Ledger.{local_date}
use finance_reconciliation.Reporting.Amounts.{days_0_30, days_31_60, days_61_90, days_over_90}
use finance_reconciliation.Reporting.Dashboard.{
  overdue, within_7, days_8_30, over_30, Funds, month_bounds, dashboard_payload,
}
use finance_reconciliation.Reporting.Cashflow.{dashboard_payload-cashflow}
use finance_reconciliation.Reporting.Buckets.{sum_of_four, dashboard_payload-buckets}
use finance_reconciliation.Reporting.Tests.{records}

abbrev none_held : Funds
none_held = record { accounts = []; snapshots = [] }

-- 4 October 2024
month_bounds-october : month_bounds 20000 ≡ (19997, 20027)
unfolding month_bounds
month_bounds-october = refl

-- 29 February 2024
month_bounds-february : month_bounds 19782 ≡ (19754, 19782)
unfolding month_bounds
month_bounds-february = refl

dashboard_payload-cashflow_example :
    ((dashboard_payload records none_held 20000).month_inflow ≡ 0)
    × ((dashboard_payload records none_held 20000).month_outflow ≡ 6000)
unfolding month_bounds local_date
dashboard_payload-cashflow_example = dashboard_payload-cashflow records none_held 20000

dashboard_payload-buckets_example :
    let shown = dashboard_payload records none_held 20000 in
    (sum_of_four
        (shown.receivable_aging days_0_30)
        (shown.receivable_aging days_31_60)
        (shown.receivable_aging days_61_90)
        (shown.receivable_aging days_over_90)
      ≡ shown.receivables)
    × (sum_of_four
          (shown.payable_due_buckets overdue)
          (shown.payable_due_buckets within_7)
          (shown.payable_due_buckets days_8_30)
          (shown.payable_due_buckets over_30)
        ≡ shown.payables)
dashboard_payload-buckets_example = dashboard_payload-buckets records none_held 20000
