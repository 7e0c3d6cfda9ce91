-- ===== src/Library/Addon/Learning.antt =====
-- `learn_labels` and `learn_files`: what a player's report teaches. The parts of the video id and
-- the size come as the numbers that they spell.
pub mod Offered
pub mod Hits
use stremio_libtorrent_serve.Base.{
  ℕ, zero, suc, Bool, true, false, not, ◌&&◌, ◌||◌, List, [], ◌∷◌, Option, none, some,
  if◌then◌else◌, is_empty,
}
use stremio_libtorrent_serve.Pins.Names.{Text, lower}
use stremio_libtorrent_serve.Library.Addon.Files.{File, Label, Entry, is_title, basename}
use stremio_libtorrent_serve.Library.Addon.Streams.{matching_files, label_matches}

pub data Kind : Type 0 where
  movie series other : Kind

-- What `_played` returns: the video, and the file that plays by its size and name.
pub record Played : Type 0 where
  pub meta_id : Text
  pub season : Option ℕ
  pub episode : Option ℕ
  pub size : ℕ
  pub name : Text

unfoldable pub played_size : Text → Option (ℕ × ℕ) → Option ℕ → Text → Option Played
unfolding basename
played_size base part (some (suc n)) filename = elim part [
  | none ↦ some (record {
    meta_id = base;
    season = none;
    episode = none;
    size = suc n;
    name = basename filename;
  })
  | some p ↦ some (record {
    meta_id = base;
    season = some p.0;
    episode = some p.1;
    size = suc n;
    name = basename filename;
  })
]
played_size base part _ filename = none

-- A film has no season and an episode has one; `none` is an id or a size that is no such thing.
unfoldable pub played : Kind → Option (Text × Option (ℕ × ℕ)) → Option ℕ → Text → Option Played
unfolding played_size
played movie (some (base, none)) size filename = played_size base none size filename
played series (some (base, some part)) size filename = played_size base (some part) size filename
played _ _ size filename = none

unfoldable pub named_file : Text → ℕ → Option (Text × ℕ)
unfolding is_empty
named_file name size = if is_empty name then none else some (name, size)

-- `_file_of`
unfoldable pub file_of : List File → ℕ → Option (Text × ℕ)
unfolding named_file basename
file_of (f ∷ []) size = named_file (basename f.name) size
file_of _ size = none

unfoldable pub label_of : Played → Option (Text × ℕ) → Label
label_of p file = record {
  meta_id = p.meta_id;
  season = p.season;
  episode = p.episode;
  file = file;
  last_source_at = none;
}

unfoldable pub label_if_matched : Played → List File → Option Label
unfolding label_of file_of
label_if_matched p [] = none
label_if_matched p (f ∷ fs) = some (label_of p (file_of (f ∷ fs) p.size))

unfoldable pub has_label : Entry → Bool
has_label e = elim e.label [ none ↦ false | some l ↦ true ]

-- What the loop of `learn_labels` finds for an entry.
unfoldable pub learn_label : Played → Entry → Option Label
unfolding is_title has_label label_if_matched matching_files
learn_label p e =
    if is_title e && not (has_label e)
    then label_if_matched p (matching_files e.files p.size p.name)
    else none

unfoldable pub has_file : Label → Bool
has_file l = elim l.file [ none ↦ false | some f ↦ true ]

unfoldable pub label_if_found : Played → Option (Text × ℕ) → Option Label
unfolding label_of
label_if_found p none = none
label_if_found p (some f) = some (label_of p (some f))

unfoldable pub learn_own : Played → Entry → Option Label → Option Label
unfolding has_file label_matches label_if_found file_of matching_files
learn_own p e none = none
learn_own p e (some own) =
    if not (has_file own) && label_matches own p.meta_id p.season p.episode
    then label_if_found p (file_of (matching_files e.files p.size p.name) p.size)
    else none

-- What the loop of `learn_files` finds for an entry.
unfoldable pub learn_file : Played → Entry → Option Label
unfolding is_title learn_own
learn_file p e = if is_title e then learn_own p e e.label else none

abbrev pub Hits : Type 0
Hits = List (Text × Label)

unfoldable pub add_hit : Entry → Option Label → Hits → Hits
unfolding lower
add_hit e none hits = hits
add_hit e (some l) hits = (lower e.info_hash, l) ∷ hits

unfoldable pub gather : (Entry → Option Label) → List Entry → Hits
unfolding add_hit
gather learn [] = []
gather learn (e ∷ es) = add_hit e (learn e) (gather learn es)

-- Without a name, several hits are none.
unfoldable pub unless_unclear : Text → Hits → Hits
unfolding is_empty
unless_unclear name (a ∷ b ∷ hits) = if is_empty name then [] else a ∷ b ∷ hits
unless_unclear name hits = hits

unfoldable pub learn_labels : List Entry → Option Played → Hits
unfolding gather learn_label unless_unclear
learn_labels es none = []
learn_labels es (some p) = unless_unclear p.name (gather (learn_label p) es)

unfoldable pub learn_files : List Entry → Option Played → Hits
unfolding gather learn_file unless_unclear
learn_files es none = []
learn_files es (some p) = unless_unclear p.name (gather (learn_file p) es)
