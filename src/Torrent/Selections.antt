-- ===== src/Torrent/Selections.antt =====
-- The selectors of `Engine` in src/stremiosrv/torrent/engine.py: `want`, `unwant`, the part of `unpin`
-- that touches them, and the restart. Files, their sizes and the number of pieces are arguments.
pub mod Synced
pub mod Applying
mod Tests
use stremio_libtorrent_serve.Base.{
  ℕ, Bool, true, false, not, ◌&&◌, ◌||◌, List, [], ◌∷◌, Option, none, some, codes_key, Dict, lookup,
  insert, erase, contains, add, discard, if◌then◌else◌,
}
use stremio_libtorrent_serve.Pins.Names.{Text, lower, Want}
use stremio_libtorrent_serve.Pins.Choosing.{select_wanted_file}
use stremio_libtorrent_serve.Pins.Wanted.{Selectors, ask}
use stremio_libtorrent_serve.Pins.Wanted as Registry
use stremio_libtorrent_serve.Torrent.Handle.{Handle, full_priority, want_file, unpin_handle}

-- What libtorrent knows of a torrent with metadata.
pub record Contents : Type 0 where
  pub files : List (Text × ℕ)
  pub pieces : ℕ

-- `wanted` and `applied` are `_wanted` and `_wanted_applied`; `file` is wanted.json.
pub record Engine : Type 0 where
  pub handles : Dict Text Handle
  pub wanted : Selectors
  pub applied : List Text
  pub file : Option Selectors

unfoldable pub resolve_all : List (Text × ℕ) → List Want → List (Option ℕ)
unfolding select_wanted_file
resolve_all files [] = []
resolve_all files (spec ∷ specs) = select_wanted_file files (some spec) ∷ resolve_all files specs

-- The files, where every selector has one and there are selectors; `none` is the whole torrent.
unfoldable pub all_resolved : List (Option ℕ) → Option (List ℕ)
all_resolved [] = some []
all_resolved (none ∷ os) = none
all_resolved (some i ∷ os) = elim (all_resolved os) [ none ↦ none | some is ↦ some (i ∷ is) ]

unfoldable pub narrowed : List (Option ℕ) → Option (List ℕ)
unfolding all_resolved
narrowed [] = none
narrowed (o ∷ os) = all_resolved (o ∷ os)

unfoldable pub want_files : List ℕ → Handle → Handle
unfolding want_file
want_files [] h = h
want_files (i ∷ is) h = want_files is (want_file i h)

unfoldable pub want_narrowed : ℕ → Option (List ℕ) → Handle → Handle
unfolding full_priority want_files
want_narrowed pieces none h = full_priority pieces h
want_narrowed pieces (some is) h = want_files is h

-- `_apply_wanted`
unfoldable pub apply_wanted : Contents → List Want → Handle → Handle
unfolding want_narrowed narrowed resolve_all
apply_wanted c specs h = want_narrowed c.pieces (narrowed (resolve_all c.files specs)) h

unfoldable pub has_metadata : Handle → Bool
has_metadata h = elim h.files [ none ↦ false | some n ↦ true ]

unfoldable pub apply_found : Text → Option Handle → Contents → List Want → Engine → Engine
unfolding has_metadata apply_wanted
apply_found ih none c specs s = s
apply_found ih (some h) c specs s =
    if has_metadata h
    then record s {
      handles = insert ih (apply_wanted c specs h) s.handles;
      applied = add ih s.applied;
    }
    else s

unfoldable pub apply_one : (Text → Contents) → Text → List Want → Engine → Engine
unfolding apply_found
apply_one contents ih specs s =
    if contains ih s.applied then s else apply_found ih (lookup ih s.handles) (contents ih) specs s

unfoldable pub apply_each : (Text → Contents) → Selectors → Engine → Engine
unfolding apply_one
apply_each contents [] s = s
apply_each contents ((ih, specs) ∷ rest) s =
    apply_each contents rest (apply_one contents ih specs s)

-- `_apply_pending_wanted`
unfoldable pub apply_pending : (Text → Contents) → Engine → Engine
unfolding apply_each
apply_pending contents s = apply_each contents s.wanted s

-- `want`
unfoldable pub want : (Text → Contents) → Text → Option Want → Engine → Engine
unfolding ask apply_pending
want contents info_hash spec s =
    let ih = lower info_hash in
    apply_pending contents (record s {
      wanted = ask ih spec s.wanted;
      file = Registry.add ih spec s.file;
      applied = discard ih s.applied;
    })

-- `unwant`
unfoldable pub unwant : Text → Engine → Engine
unwant info_hash s =
    let ih = lower info_hash in
    record s {
      wanted = erase ih s.wanted;
      applied = discard ih s.applied;
      file = Registry.drop ih s.file;
    }

unfoldable pub unpin_found : Text → Option Handle → Dict Text Handle → Dict Text Handle
unpin_found ih none handles = handles
unpin_found ih (some h) handles = insert ih (unpin_handle h) handles

-- `unpin`, less the registry of pins
unfoldable pub unpin : Text → Engine → Engine
unfolding unpin_found
unpin info_hash s =
    let ih = lower info_hash in
    record s {
      wanted = erase ih s.wanted;
      applied = discard ih s.applied;
      handles = unpin_found ih (lookup ih s.handles) s.handles;
    }

-- `load_pins_into_session` of a new process, as far as selectors go, before any is applied.
unfoldable pub restart : Dict Text Handle → Engine → Engine
restart handles s = record {
  handles = handles;
  wanted = Registry.load s.file;
  applied = [];
  file = s.file;
}
