-- ===== src/Library/Addon/Streams.antt =====
-- `streams_for_meta_id`: the streams that the library offers for a video. The id comes in its
-- parts, a season or an episode that is no number as none.
use stremio_libtorrent_serve.Base.{
  ℕ, suc, Bool, true, false, ◌&&◌, ◌||◌, List, [], ◌∷◌, Option, none, some, keep, leb, ◌==◌,
  if◌then◌else◌, is_empty,
}
use stremio_libtorrent_serve.Pins.Names.{Text, lower}
use stremio_libtorrent_serve.Pins.Choosing.{same_text}
use stremio_libtorrent_serve.Library.Addon.Files.{
  File, Label, Entry, is_title, basename, is_addressable, playable_index, episode_index,
  label_alone_names_the_file, offered,
}

unfoldable pub can_mean : ℕ → Text → File → Bool
unfolding is_empty basename same_text
can_mean size name f = f.size == size && (is_empty name || same_text (basename f.name) name)

-- `_matching_files`
unfoldable pub matching_files : List File → ℕ → Text → List File
unfolding keep can_mean
matching_files files size name = keep (can_mean size name) files

unfoldable pub only_offered : List File → Option ℕ
unfolding offered
only_offered (f ∷ []) = offered f
only_offered _ = none

-- `_recorded_index`
unfoldable pub recorded_index : Entry → Text → ℕ → Option ℕ
unfolding only_offered keep is_addressable matching_files
recorded_index e name size = only_offered (keep is_addressable (matching_files e.files size name))

unfoldable pub same_number : Option ℕ → Option ℕ → Bool
same_number none none = true
same_number (some a) (some b) = a == b
same_number _ _ = false

unfoldable pub is_none : Option ℕ → Bool
is_none none = true
is_none (some n) = false

unfoldable pub same_part : Option ℕ → Option ℕ → Label → Bool
unfolding is_none same_number
same_part none episode l = is_none l.season && is_none l.episode
same_part (some season) episode l =
    same_number l.season (some season) && same_number l.episode episode

-- `_label_matches`
unfoldable pub label_matches : Label → Text → Option ℕ → Option ℕ → Bool
unfolding same_text same_part
label_matches l base season episode = same_text l.meta_id base && same_part season episode l

unfoldable pub episode_of : Entry → Option ℕ → Option ℕ → Option ℕ
unfolding episode_index
episode_of e (some season) (some episode) = episode_index e season episode
episode_of e _ _ = none

unfoldable pub fallback : Bool → Option ℕ → Entry → Option ℕ
unfolding is_none label_alone_names_the_file playable_index
fallback own season e =
    if own && (is_none season || label_alone_names_the_file e) then playable_index e else none

unfoldable pub first_of : Option ℕ → Option ℕ → Option ℕ
first_of none o = o
first_of (some i) o = some i

unfoldable pub chosen_by : Bool → Option (Text × ℕ) → Entry → Option ℕ → Option ℕ → Option ℕ
unfolding recorded_index first_of episode_of fallback
chosen_by true (some (name, size)) e season episode = recorded_index e name size
chosen_by own file e season episode = first_of (episode_of e season episode) (fallback own season e)

-- The file that is offered of an entry with this label, if one is.
unfoldable pub chosen_index : Entry → Label → Text → Option ℕ → Option ℕ → Option ℕ
unfolding chosen_by label_matches
chosen_index e l base season episode =
    chosen_by (label_matches l base season episode) l.file e season episode

pub record Stream : Type 0 where
  pub info_hash : Text
  pub index : ℕ
  pub last_source_at : Option ℕ

unfoldable pub as_stream : Option ℕ → Entry → Option ℕ → Option Stream
unfolding lower
as_stream none e last = none
as_stream (some i) e last =
    some (record { info_hash = lower e.info_hash; index = i; last_source_at = last })

unfoldable pub own_source : Bool → Label → Option ℕ
own_source own l = if own then l.last_source_at else none

unfoldable pub labelled_stream : Option Label → Entry → Text → Option ℕ → Option ℕ → Option Stream
unfolding same_text as_stream chosen_index own_source label_matches
labelled_stream none e base season episode = none
labelled_stream (some l) e base season episode =
    if same_text l.meta_id base
    then as_stream (chosen_index e l base season episode) e
        (own_source (label_matches l base season episode) l)
    else none

unfoldable pub stream_of : Entry → Text → Option ℕ → Option ℕ → Option Stream
unfolding is_title labelled_stream
stream_of e base season episode =
    if is_title e then labelled_stream e.label e base season episode else none

unfoldable pub rank : Option ℕ → ℕ
rank none = 0
rank (some t) = suc t

-- Into a list that is sorted, before what is as late.
unfoldable pub place : Stream → List Stream → List Stream
unfolding rank
place s [] = s ∷ []
place s (t ∷ ts) =
    let later = t ∷ place s ts in
    if leb (rank t.last_source_at) (rank s.last_source_at) then s ∷ t ∷ ts else later

unfoldable pub place_found : Option Stream → List Stream → List Stream
unfolding place
place_found none ss = ss
place_found (some s) ss = place s ss

-- The latest source first, and else in the order of the entries.
unfoldable pub streams_for_meta_id : List Entry → Text → Option ℕ → Option ℕ → List Stream
unfolding place_found stream_of
streams_for_meta_id [] base season episode = []
streams_for_meta_id (e ∷ es) base season episode =
    place_found (stream_of e base season episode) (streams_for_meta_id es base season episode)
