-- ===== src/Transcode/Command.antt =====
-- The command line of an encoder: `build_hls_cmd` of src/stremiosrv/transcode/converter.py.
pub mod Probe
pub mod Video
pub mod Output
pub mod Build
pub mod Copying
pub mod Tracks
mod Tests
