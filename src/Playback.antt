-- ===== src/Playback.antt =====
-- The registry of playback activity: src/stremiosrv/playback_sessions.py.
pub mod Sessions
pub mod Pruning
pub mod Owning
pub mod Invariant
pub mod Registering
pub mod Snapshot
mod Tests
