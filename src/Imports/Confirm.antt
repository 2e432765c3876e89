-- ===== src/Imports/Confirm.antt =====
-- apps/imports: from the staged rows of a batch to the formal records.
pub mod Insertions
pub mod Posting
pub mod Snapshots
pub mod Operation
pub mod Turns
pub mod Tallies
pub mod Confirmed
pub mod Repeated
pub mod Kept
pub mod Recorded
pub mod Statuses
pub mod Grown
pub mod Permanent
pub mod AccountEntries
pub mod LatestBalances
pub mod Balances
pub mod Statement
