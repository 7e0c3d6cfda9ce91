-- ===== src/Pins/Choosing.antt =====
-- `select_wanted_file` and `guess_file_idx` of src/stremiosrv/pins.py.
pub mod Largest
pub mod Agreement
use stremio_libtorrent_serve.Base.{
  ℕ, suc, Bool, true, false, List, [], ◌∷◌, ◌++◌, Option, none, some, length, keep, ltb,
  if◌then◌else◌, codes, ◌||◌,
}
use stremio_libtorrent_serve.Pins.Names.{Text, lower, Want, is_episode, names_an_episode}

pub record Candidate : Type 0 where
  pub index : ℕ
  pub path : Text
  pub size : ℕ

-- `enumerate(files)`, from an index.
unfoldable pub number_from : ℕ → List (Text × ℕ) → List Candidate
number_from i [] = []
number_from i ((path, size) ∷ files) =
    record { index = i; path = path; size = size } ∷ number_from (suc i) files

-- `VIDEO_EXT`
abbrev pub video_ext : List Text
video_ext =
    codes ".mkv"
    ∷ codes ".mp4"
    ∷ codes ".avi"
    ∷ codes ".m4v"
    ∷ codes ".mov"
    ∷ codes ".ts"
    ∷ codes ".webm"
    ∷ codes ".m2ts"
    ∷ []

-- `MEDIA_EXT`
abbrev pub media_ext : List Text
media_ext =
    video_ext
    ++ (codes ".wmv"
        ∷ codes ".vp8"
        ∷ codes ".mpg"
        ∷ codes ".m3u8"
        ∷ codes ".flac"
        ∷ codes ".mp3"
        ∷ codes ".wav"
        ∷ codes ".wma"
        ∷ codes ".aac"
        ∷ codes ".ogg"
        ∷ [])

unfoldable pub same_text : Text → Text → Bool
same_text [] [] = true
same_text (a ∷ s) (b ∷ t) = let rest = same_text s t in if ltb a b || ltb b a then false else rest
same_text _ _ = false

unfoldable pub has_ending : Text → Text → Bool
unfolding same_text
has_ending ending [] = same_text ending []
has_ending ending (c ∷ s) = same_text ending (c ∷ s) || has_ending ending s

-- `path.lower().endswith(endings)`
unfoldable pub has_any_ending : List Text → Text → Bool
unfolding has_ending
has_any_ending [] path = false
has_any_ending (e ∷ endings) path = has_ending e path || has_any_ending endings path

unfoldable pub is_video : Candidate → Bool
unfolding has_any_ending lower
is_video c = has_any_ending video_ext (lower c.path)

unfoldable pub is_media : Candidate → Bool
unfolding has_any_ending lower
is_media c = has_any_ending media_ext (lower c.path)

-- The largest, the first on a tie, from the best so far.
unfoldable pub largest : Candidate → List Candidate → Candidate
largest best [] = best
largest best (c ∷ cs) = largest (if ltb best.size c.size then c else best) cs

unfoldable pub largest_index : List Candidate → Option ℕ
unfolding largest
largest_index [] = none
largest_index (c ∷ cs) = some (largest c cs).index

-- `a or b`
unfoldable pub or_else : List Candidate → List Candidate → List Candidate
or_else [] other = other
or_else (c ∷ cs) other = c ∷ cs

unfoldable pub hits : Want → List (Text × ℕ) → List Candidate
unfolding keep number_from
hits want files = keep (λ c. is_episode want.season want.episode c.path) (number_from 0 files)

unfoldable pub by_name : Want → List (Text × ℕ) → Option ℕ
unfolding hits largest_index or_else is_video names_an_episode
by_name want files =
    if names_an_episode want.season want.episode
    then largest_index (or_else (keep is_video (hits want files)) (hits want files))
    else none

unfoldable pub by_index : Option ℕ → Want → List (Text × ℕ) → Option ℕ
unfolding by_name
by_index none want files = by_name want files
by_index (some i) want files = if ltb i (length files) then some i else by_name want files

-- `none` is that every file is wanted.
unfoldable pub select_wanted_file : List (Text × ℕ) → Option Want → Option ℕ
unfolding by_index
select_wanted_file files none = none
select_wanted_file files (some want) = by_index want.file_idx want files

unfoldable pub media_files : List (Text × ℕ) → List Candidate
unfolding keep is_media number_from
media_files files = keep is_media (number_from 0 files)

-- `none` is -1, no media.
unfoldable pub guess_file_idx : List (Text × ℕ) → Option Want → Option ℕ
unfolding media_files largest_index or_else names_an_episode
guess_file_idx files none = largest_index (media_files files)
guess_file_idx files (some want) =
    let media = media_files files in
    let episodes = keep (λ c. is_episode want.season want.episode c.path) media in
    largest_index
      (if names_an_episode want.season want.episode then or_else episodes media else media)
