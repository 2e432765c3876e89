-- ===== src/Updater/State.antt =====
-- The state of the updater as JSON (updater/types.py): what is written, how it is read, its views, and its file.
pub mod Json
pub mod Encode
pub mod Decode
pub mod RoundTrip
pub mod Sound
pub mod Views
pub mod Public
pub mod Store
pub mod Kept
mod Tests
