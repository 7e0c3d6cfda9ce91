-- ===== src/Pins.antt =====
-- src/stremiosrv/pins.py: what is kept, and which file of a torrent is meant.
pub mod Names
pub mod Choosing
pub mod Wanted
mod Tests
