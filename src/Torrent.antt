-- ===== src/Torrent.antt =====
-- The torrents: src/stremiosrv/torrent.
pub mod Handle
pub mod Policy
pub mod Prefetch
pub mod Trackers
pub mod TrackerSource
pub mod Selections
mod Tests
