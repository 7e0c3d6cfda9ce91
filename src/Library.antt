-- ===== src/Library.antt =====
-- The library's server side: src/stremiosrv/library.
pub mod RateLimit
pub mod Session
pub mod Labels
pub mod Bencode
pub mod Listing
pub mod Addon
mod Tests
