-- ===== src/Torrent/TrackerSource/Restart.antt =====
-- What a server that starts offline knows.
use stremio_libtorrent_serve.Base.{
  ◌≡◌, refl, Bool, true, false, List, [], ◌∷◌, Option, none, some, arith,
}
use stremio_libtorrent_serve.Torrent.Trackers.{Text, parse_tracker_string}
use stremio_libtorrent_serve.Torrent.Trackers.Reading.{
  IsRead, parse_tracker_string-IsRead, parse_tracker_string-write_lines,
}
use stremio_libtorrent_serve.Torrent.TrackerSource.{
  Source, load_cache, start, is_nothing, store, refresh_once, refresh_all,
}

-- A start with the file as it is would find the list as it is.
abbrev pub IsSynced : Source → Type 0
IsSynced s = load_cache true s.file ≡ s.trackers

-- A list that is not empty.
abbrev pub IsUsable : Source → Type 0
IsUsable s = is_nothing s.trackers ≡ false

store-IsSynced :
    (parsed : List Text) (s : Source)
    → s.has_path ≡ true
    → IsRead parsed
    → IsSynced s
    → IsSynced (store true parsed s).0 × ((store true parsed s).0.has_path ≡ true)
unfolding store load_cache
store-IsSynced parsed s p r h = ground (arith, parse_tracker_string-write_lines parsed r)

refresh_once-IsSynced :
    (body : Option Text) (s : Source)
    → s.has_path ≡ true
    → IsSynced s
    → IsSynced (refresh_once body true s).0 × ((refresh_once body true s).0.has_path ≡ true)
unfolding refresh_once
refresh_once-IsSynced none s p h = (h, p)
refresh_once-IsSynced (some body) s p h =
    store-IsSynced (parse_tracker_string body) s p (parse_tracker_string-IsRead body) h

refresh_all-IsSynced :
    (bodies : List (Option Text)) (s : Source)
    → s.has_path ≡ true
    → IsSynced s
    → IsSynced (refresh_all bodies true s)
unfolding refresh_all
refresh_all-IsSynced [] s p h = h
refresh_all-IsSynced (body ∷ bodies) s p h =
    let (h', p') = refresh_once-IsSynced body s p h in
    refresh_all-IsSynced bodies (refresh_once body true s).0 p' h'

store-IsUsable :
    (writes : Bool) (parsed : List Text) (s : Source)
    → IsUsable s
    → IsUsable (store writes parsed s).0
unfolding store
store-IsUsable writes parsed s h = ground arith

refresh_all-IsUsable :
    (bodies : List (Option Text)) (writes : Bool) (s : Source)
    → IsUsable s
    → IsUsable (refresh_all bodies writes s)
unfolding refresh_all refresh_once
refresh_all-IsUsable [] writes s h = h
refresh_all-IsUsable (none ∷ bodies) writes s h = refresh_all-IsUsable bodies writes s h
refresh_all-IsUsable (some body ∷ bodies) writes s h =
    refresh_all-IsUsable bodies writes (store writes (parse_tracker_string body) s).0
      (store-IsUsable writes (parse_tracker_string body) s h)

-- Whatever was fetched, or failed to be, since a start: where the cache file has a path and could be
-- written, a server that starts from that file has the list that the old one had; and a list that
-- was not empty at the start is not empty after it.
pub refresh_all-restart :
    (file : Option Text) (bodies : List (Option Text))
    → let s = refresh_all bodies true (start true file) in
      ((start true s.file).trackers ≡ s.trackers) × (IsUsable (start true file) → IsUsable s)
unfolding start
refresh_all-restart file bodies =
    let synced = refresh_all-IsSynced bodies (start true file) refl refl in
    (synced, refresh_all-IsUsable bodies true (start true file))
