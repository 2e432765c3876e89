-- ===== src/Updater/Valid.antt =====
-- The operations of the manager (updater/manager.py), from a state that updater/types.py accepts.
pub mod Rules
pub mod Cleans
pub mod Updates
pub mod Recoveries
pub mod Requests
pub mod Reached
mod Tests
