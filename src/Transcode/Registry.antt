-- ===== src/Transcode/Registry.antt =====
-- `Converter` of src/stremiosrv/transcode/converter.py: which client jobs share which encoder.
-- An operation is split where the code releases its lock: what runs under the lock is one
-- function, and what it leaves to be done afterwards is its result.
pub mod Directories
pub mod State
pub mod Ensure
pub mod Ending
pub mod Methods
pub mod Sharing
pub mod Cleanup
pub mod Release
pub mod Reaping
pub mod Races
mod Tests
pub mod Invariant
