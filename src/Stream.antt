-- ===== src/Stream.antt =====
-- Streaming a file of a torrent: src/stremiosrv/stream.
pub mod Serving
pub mod Ranges
pub mod Types
mod Tests
