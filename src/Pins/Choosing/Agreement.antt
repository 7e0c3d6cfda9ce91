-- ===== src/Pins/Choosing/Agreement.antt =====
-- Downloading an episode and playing it: the file that each takes.
use stremio_libtorrent_serve.Base.{◌≡◌, Bool, true, List, [], ◌∷◌}
use stremio_libtorrent_serve.Pins.Choosing.{Candidate, is_video, is_media}

-- Every file that reads as the episode is a video if it is media, and the other way round.
abbrev pub OnlyVideos : (Candidate → Bool) → List Candidate → Type 0
OnlyVideos p [] = Unit
OnlyVideos p (c ∷ cs) = (p c ≡ true → is_media c ≡ is_video c) × OnlyVideos p cs
