-- ===== src/Pins/Wanted.antt =====
-- src/stremiosrv/wanted.py: which files of which torrents were asked for, as wanted.json keeps it.
pub mod Lowered
pub mod Remembering
use stremio_libtorrent_serve.Base.{
  ℕ, Bool, true, false, ◌&&◌, ◌||◌, List, [], ◌∷◌, ◌++◌, Option, none, some, codes_key, Dict,
  lookup, insert, erase, if◌then◌else◌, ◌==◌,
}
use stremio_libtorrent_serve.Pins.Names.{Text, lower, Want}

-- `{}`, the whole torrent
abbrev pub whole : Want
whole = record { file_idx = none; season = none; episode = none }

unfoldable pub same_number : Option ℕ → Option ℕ → Bool
same_number none none = true
same_number (some a) (some b) = a == b
same_number _ _ = false

unfoldable pub same_want : Want → Want → Bool
unfolding same_number
same_want v w =
    same_number v.file_idx w.file_idx
    && (same_number v.season w.season && same_number v.episode w.episode)

-- `entry in specs`
unfoldable pub has_want : Want → List Want → Bool
unfolding same_want
has_want w [] = false
has_want w (v ∷ vs) = same_want w v || has_want w vs

unfoldable pub spec_or_whole : Option Want → Want
spec_or_whole none = whole
spec_or_whole (some w) = w

-- The selectors with one more, if it is not there.
unfoldable pub add_want : Want → List Want → List Want
unfolding has_want
add_want w specs = if has_want w specs then specs else specs ++ w ∷ []

abbrev pub Selectors : Type 0
Selectors = Dict Text (List Want)

unfoldable pub load_all : Selectors → Selectors → Selectors
load_all out [] = out
load_all out ((ih, specs) ∷ rest) = load_all (insert (lower ih) specs out) rest

-- `load`; `none` is a file that is not there or cannot be read.
unfoldable pub load : Option Selectors → Selectors
unfolding load_all
load none = []
load (some d) = load_all [] d

unfoldable pub or_empty : Option (List Want) → List Want
or_empty none = []
or_empty (some specs) = specs

unfoldable pub ask : Text → Option Want → Selectors → Selectors
unfolding or_empty add_want spec_or_whole
ask ih spec d = insert ih (add_want (spec_or_whole spec) (or_empty (lookup ih d))) d

-- `add`, the file after it was written
unfoldable pub add : Text → Option Want → Option Selectors → Option Selectors
unfolding load ask
add info_hash spec file = some (ask (lower info_hash) spec (load file))

unfoldable pub drop_found :
    Text → Option (List Want) → Selectors → Option Selectors → Option Selectors
drop_found ih none d file = file
drop_found ih (some specs) d file = some (erase ih d)

-- `drop`
unfoldable pub drop : Text → Option Selectors → Option Selectors
unfolding drop_found load
drop info_hash file =
    let ih = lower info_hash in let d = load file in drop_found ih (lookup ih d) d file
