-- ===== src/Torrent/Prefetch.antt =====
-- src/stremiosrv/torrent/prefetch.py, `pieces_for_range` of picker.py, and `_prefetch_tick` of the engine.
-- Digits are ASCII's. A fraction is a number of thousandths, and its products are exact.
pub mod Order
mod Keys
mod Sorting
pub mod Next
pub mod Tick
mod Tests
use stremio_libtorrent_serve.Base.{
  ℕ, zero, suc, ◌+◌, ◌-◌, ◌*◌, ◌/◌, min, max, Bool, true, false, not, ◌&&◌, ◌||◌, List, [], ◌∷◌,
  ◌++◌, Option, none, some, ltb, leb, ◌==◌, if◌then◌else◌, length, contains, number_key,
}
use stremio_libtorrent_serve.Stream.Types.{is_video}
use stremio_libtorrent_serve.Torrent.Prefetch.Order.{Split, natural_key, less_key}
use stremio_libtorrent_serve.Pins.Names.{Text}

-- libtorrent's list of a torrent's files.
pub record FileSlot : Type 0 where
  pub path : Text
  pub size : ℕ
  pub offset : ℕ

-- So many numbers from one on.
unfoldable pub span : ℕ → ℕ → List ℕ
span a zero = []
span a (suc n) = a ∷ span (suc a) n

unfoldable pub pieces_for_range : ℕ → ℕ → ℕ → List ℕ
unfolding span
pieces_for_range start end plen = span (start / plen) (suc (end / plen) - start / plen)

unfoldable pub position_reached : ℕ → ℕ → ℕ → Bool
position_reached pos total trigger =
    if total == 0 || (trigger == 0 || ltb 1000 trigger)
    then false
    else leb (total * trigger) (pos * 1000)

abbrev pub min_video_bytes : ℕ
min_video_bytes = 16777216

abbrev pub tail_bytes : ℕ
tail_bytes = 4194304

unfoldable pub eligible_from : ℕ → ℕ → List FileSlot → List (ℕ × Split)
unfolding is_video natural_key
eligible_from floor i [] = []
eligible_from floor i (f ∷ files) =
    let rest = eligible_from floor (suc i) files in
    if is_video f.path && leb floor f.size then (i, natural_key f.path) ∷ rest else rest

-- `sort`, which keeps the order of equals
unfoldable pub place : ℕ × Split → List (ℕ × Split) → List (ℕ × Split)
unfolding less_key
place (i, k) [] = (i, k) ∷ []
place (i, k) ((j, l) ∷ rest) =
    let further = place (i, k) rest in
    if less_key l k then (j, l) ∷ further else (i, k) ∷ (j, l) ∷ rest

unfoldable pub sort : List (ℕ × Split) → List (ℕ × Split)
unfolding place
sort [] = []
sort (x ∷ xs) = place x (sort xs)

unfoldable pub first_of : List (ℕ × Split) → Option ℕ
first_of [] = none
first_of ((i, k) ∷ rest) = some i

-- `eligible[eligible.index(current) + 1]`, if both are there
unfoldable pub behind_current : ℕ → List (ℕ × Split) → Option ℕ
unfolding first_of
behind_current current [] = none
behind_current current ((i, k) ∷ rest) =
    let further = behind_current current rest in if i == current then first_of rest else further

unfoldable pub file_at : ℕ → List FileSlot → Option FileSlot
file_at i [] = none
file_at zero (f ∷ files) = some f
file_at (suc i) (f ∷ files) = file_at i files

unfoldable pub next_of : Option FileSlot → ℕ → List FileSlot → Option ℕ
unfolding eligible_from sort behind_current
next_of none current files = none
next_of (some f) current files =
    behind_current current (sort (eligible_from (max min_video_bytes (f.size / 4)) 0 files))

unfoldable pub next_video_index : List FileSlot → ℕ → Option ℕ
unfolding next_of file_at
next_video_index files current = next_of (file_at current files) current files

unfoldable pub head_bytes : ℕ → ℕ → ℕ → ℕ
head_bytes size fraction max_bytes = min (min (size * fraction / 1000) max_bytes) size

unfoldable pub head_pieces : ℕ → ℕ → ℕ → ℕ → ℕ → List ℕ
unfolding pieces_for_range head_bytes
head_pieces offset size plen fraction max_bytes =
    if plen == 0 || (size == 0 || ltb 1000 fraction)
    then []
    else if head_bytes size fraction max_bytes == 0
    then []
    else pieces_for_range offset (offset + head_bytes size fraction max_bytes - 1) plen

-- `end - n + 1` is `offset + size - n`.
unfoldable pub tail_pieces : ℕ → ℕ → ℕ → List ℕ
unfolding pieces_for_range
tail_pieces offset size plen =
    if plen == 0 || size == 0
    then []
    else pieces_for_range (offset + size - min tail_bytes size) (offset + size - 1) plen

-- `list(dict.fromkeys(pieces))`, given those that were met
unfoldable pub distinct : List ℕ → List ℕ → List ℕ
distinct met [] = []
distinct met (p ∷ pieces) =
    let rest = distinct (p ∷ met) pieces in
    let others = distinct met pieces in if contains p met then others else p ∷ rest
