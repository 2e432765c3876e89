-- ===== src/Reporting.antt =====
-- apps/reporting: the reports on the formal records as of a day (queries.py), and the dashboard.
pub mod Amounts
pub mod Suppliers
pub mod SupplierAccounts
pub mod Sorting
pub mod Sums
pub mod Totals
pub mod OneSupplier
pub mod Running
pub mod Present
pub mod Open
pub mod Exceptions
pub mod Differences
pub mod Imported
pub mod Items
pub mod Sound
pub mod Coverage
pub mod Complete
pub mod Dashboard
pub mod Cashflow
pub mod Buckets
mod Tests
mod DashboardTests
