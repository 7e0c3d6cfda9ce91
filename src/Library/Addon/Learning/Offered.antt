-- ===== src/Library/Addon/Learning/Offered.antt =====
-- What was learned from a play, and what is offered for the video afterwards.
use stremio_libtorrent_serve.Base.{◌≡◌}
use stremio_libtorrent_serve.Library.Addon.Streams.{is_none}
use stremio_libtorrent_serve.Library.Addon.Learning.{Played}

-- A report's season and episode come together.
abbrev pub IsVideo : Played → Type 0
IsVideo p = is_none p.season ≡ is_none p.episode
