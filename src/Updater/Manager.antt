-- ===== src/Updater/Manager.antt =====
-- `UpdateManager` of updater/manager.py.
pub mod Tasks
pub mod Cleanup
pub mod Execute
pub mod Phases
pub mod Recover
pub mod Checks
pub mod Holds
pub mod Steps
pub mod Order
pub mod Journal
pub mod Rollbacks
pub mod Ends
pub mod Recovers
pub mod Checked
pub mod Starts
