-- ===== src/Pins/Tests.antt =====
-- Runs of the choice of a file at concrete inputs.
use stremio_libtorrent_serve.Base.{
  ℕ, ◌≡◌, refl, true, false, List, [], ◌∷◌, none, some, codes, codes_key, print, is_blank,
}
use stremio_libtorrent_serve.Pins.Names.{Text, Want, names_episode, is_episode}
use stremio_libtorrent_serve.Pins.Choosing.{guess_file_idx}

padded_name : names_episode (codes "a/Show.s01 - E05.mkv") 1 5 ≡ true
unfolding names_episode print is_blank
padded_name = refl

longer_episode : names_episode (codes "Show.S01E10.mkv") 1 1 ≡ false
unfolding names_episode print is_blank
longer_episode = refl

crossed_name : names_episode (codes "Show 4 x 05") 4 5 ≡ true
unfolding names_episode print is_blank
crossed_name = refl

resolution : names_episode (codes "Show 1920x1080") 20 108 ≡ false
unfolding names_episode print is_blank
resolution = refl

season_zero : names_episode (codes "S00E00") 0 0 ≡ true
unfolding names_episode print is_blank
season_zero = refl

abbrev files : List (Text × ℕ)
files = (codes "Sample/S01E02.mkv", 5) ∷ (codes "S01E02.mkv", 90) ∷ (codes "S01E03.mkv", 99) ∷ []

abbrev second : Want
second = record { file_idx = none; season = some 1; episode = some 2 }

guesses_same : guess_file_idx files (some second) ≡ some 1
unfolding guess_file_idx print is_blank is_episode
guesses_same = refl
