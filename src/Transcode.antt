-- ===== src/Transcode.antt =====
-- HLS transcoding: src/stremiosrv/transcode.
pub mod Registry
pub mod Command
