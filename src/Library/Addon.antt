-- ===== src/Library/Addon.antt =====
-- src/stremiosrv/library/addon_model.py: what the library offers a player.
pub mod Ids
pub mod Files
pub mod Streams
pub mod Playing
pub mod Offers
pub mod Learning
mod Tests
