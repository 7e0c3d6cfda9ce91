-- ===== src/Torrent/TrackerSource.antt =====
-- `TrackerSource` of src/stremiosrv/torrent/tracker_source.py: the list that is fetched, and its
-- copy on disk.
pub mod Restart
mod Tests
use stremio_libtorrent_serve.Base.{
  Bool, true, false, not, ◌&&◌, List, [], ◌∷◌, Option, none, some, if◌then◌else◌, ite, codes_key,
  codes_discrete,
}
use stremio_libtorrent_serve.Torrent.Trackers.{Text, parse_tracker_string}
use stremio_libtorrent_serve.Torrent.Trackers.Reading.{write_lines}

-- `file` is the contents of the cache file, if there is one that can be read; `has_path` is whether
-- a path for it was given.
pub record Source : Type 0 where
  pub trackers : List Text
  pub has_path : Bool
  pub file : Option Text

unfoldable pub load_file : Option Text → List Text
load_file none = []
load_file (some text) = parse_tracker_string text

-- `_load_cache`
unfoldable pub load_cache : Bool → Option Text → List Text
unfolding load_file
load_cache has_path file = if has_path then load_file file else []

-- `__init__`
unfoldable pub start : Bool → Option Text → Source
start has_path file = record {
  trackers = load_cache has_path file;
  has_path = has_path;
  file = file;
}

-- `_write_cache`; `writes` is whether the file can be written.
unfoldable pub write_cache : Bool → List Text → Source → Source
write_cache writes trackers s =
    if s.has_path && writes then record s { file = some (write_lines trackers) } else s

unfoldable pub same_texts : List Text → List Text → Bool
unfolding codes_discrete
same_texts [] [] = true
same_texts (t ∷ ts) (u ∷ us) = ite (codes_discrete t u) true false && same_texts ts us
same_texts _ _ = false

unfoldable pub is_nothing : List Text → Bool
is_nothing [] = true
is_nothing (t ∷ ts) = false

unfoldable pub store : Bool → List Text → Source → Source × Bool
unfolding write_cache same_texts is_nothing
store writes parsed s =
    if is_nothing parsed
    then (s, false)
    else if same_texts parsed s.trackers
    then (s, false)
    else (write_cache writes parsed (record s { trackers = parsed }), true)

-- `refresh_once`; `none` is a fetch that raised.
unfoldable pub refresh_once : Option Text → Bool → Source → Source × Bool
unfolding store
refresh_once none writes s = (s, false)
refresh_once (some body) writes s = store writes (parse_tracker_string body) s

-- The rounds of `_loop`.
unfoldable pub refresh_all : List (Option Text) → Bool → Source → Source
unfolding refresh_once
refresh_all [] writes s = s
refresh_all (body ∷ bodies) writes s = refresh_all bodies writes (refresh_once body writes s).0
