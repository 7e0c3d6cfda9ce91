-- ===== src/Cache.antt =====
-- The cache directory: src/stremiosrv/cache.py.
pub mod Eviction
pub mod Pass
pub mod Owner
pub mod Resume
mod Tests
