-- ===== src/Updater.antt =====
-- The self-updater (updater/) that runs beside the web application: its state, the file that holds it,
-- and the manager.
pub mod Types
pub mod Versions
pub mod State
pub mod Machine
pub mod Logic
pub mod Atomic
pub mod Manager
pub mod Valid
mod Tests
