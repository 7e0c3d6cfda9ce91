-- ===== src/Torrent/Prefetch/Tick.antt =====
-- `_prefetch_tick` of src/stremiosrv/torrent/engine.py, with `file_complete` of a handle.
pub mod Covering
pub mod Spared
use stremio_libtorrent_serve.Base.{
  ℕ, ◌+◌, ◌-◌, ◌*◌, Bool, true, false, not, ◌&&◌, List, [], ◌∷◌, ◌++◌, Option, none, some, ◌==◌,
  if◌then◌else◌, length, contains, number_key,
}
use stremio_libtorrent_serve.Torrent.Handle.{
  Handle, is_active, is_focus, prefetch_arm, mark_prefetched,
}
use stremio_libtorrent_serve.Torrent.Prefetch.{
  FileSlot, pieces_for_range, position_reached, file_at, next_video_index, head_pieces, tail_pieces,
  distinct,
}

pub record FileStorage : Type 0 where
  pub plen : ℕ
  pub files : List FileSlot

-- What a tick is told: the metadata and its files, the pieces that are there, the file that is in
-- focus at the end of the scan, and whether the torrent is paused.
pub record Seen : Type 0 where
  pub has_metadata : Bool
  pub storage : Option FileStorage
  pub have : ℕ → Bool
  pub focus_later : Option ℕ
  pub paused : Bool

pub record Settings : Type 0 where
  pub trigger : ℕ
  pub fraction : ℕ
  pub max_bytes : ℕ

unfoldable pub all_there : (ℕ → Bool) → List ℕ → Bool
all_there have [] = true
all_there have (p ∷ pieces) = have p && all_there have pieces

unfoldable pub file_complete : (ℕ → Bool) → ℕ → Option FileSlot → Bool
unfolding pieces_for_range all_there
file_complete have plen none = false
file_complete have plen (some f) =
    if f.size == 0
    then false
    else all_there have (pieces_for_range f.offset (f.offset + f.size - 1) plen)

unfoldable pub next_pieces : Settings → ℕ → Option FileSlot → List ℕ
unfolding head_pieces tail_pieces distinct
next_pieces o plen none = []
next_pieces o plen (some f) =
    distinct []
      (head_pieces f.offset f.size plen o.fraction o.max_bytes ++ tail_pieces f.offset f.size plen)

-- The handle behind it, whether the torrent is resumed, and the bytes that are recorded as planned.
pub data Tick : Type 0 where
  idle : Tick
  armed : Handle → Bool → ℕ → Tick

unfoldable pub arm : Seen → ℕ → ℕ → List ℕ → Handle → Tick
unfolding prefetch_arm mark_prefetched
arm seen plen next [] h = idle
arm seen plen next (p ∷ pieces) h =
    armed (mark_prefetched next (prefetch_arm (p ∷ pieces) h)) seen.paused
      (length (p ∷ pieces) * plen)

unfoldable pub consider : Settings → Seen → FileStorage → ℕ → Option ℕ → Handle → Tick
unfolding is_focus file_at file_complete next_pieces arm
consider o seen st idx none h = idle
consider o seen st idx (some next) h =
    if contains next h.prefetched
    then idle
    else if not (file_complete seen.have st.plen (file_at idx st.files))
    then idle
    else if is_focus seen.focus_later idx
    then arm seen st.plen next (next_pieces o st.plen (file_at next st.files)) h
    else idle

unfoldable pub tick_storage : Settings → Seen → Option FileStorage → ℕ → Handle → Tick
unfolding consider next_video_index
tick_storage o seen none idx h = idle
tick_storage o seen (some st) idx h = consider o seen st idx (next_video_index st.files idx) h

unfoldable pub tick_focus : Settings → Seen → Option ℕ → Handle → Tick
unfolding tick_storage position_reached
tick_focus o seen none h = idle
tick_focus o seen (some idx) h =
    if position_reached h.read_pos h.read_total o.trigger
    then tick_storage o seen seen.storage idx h
    else idle

unfoldable pub prefetch_tick : Settings → Seen → Handle → Tick
unfolding is_active tick_focus
prefetch_tick o seen h =
    if is_active h && seen.has_metadata then tick_focus o seen h.focused h else idle
