-- ===== src/Library/Addon/Files.antt =====
-- The files of an entry, and which of them are offered. A text is its code points; `progress` is in
-- thousandths.
use stremio_libtorrent_serve.Base.{
  ℕ, Bool, true, false, not, ◌&&◌, ◌||◌, List, [], ◌∷◌, Option, none, some, keep, ltb, leb, ◌==◌,
  if◌then◌else◌, codes, is_digit, is_blank, is_empty,
}
use stremio_libtorrent_serve.Stream.Types.{is_video}
use stremio_libtorrent_serve.Pins.Names.{
  Text, Matcher, ◌then◌, letter, many, at_most, one, exactly, is_filler, no_digit, search_for,
  search_behind, names_episode, is_match,
}
use stremio_libtorrent_serve.Pins.Choosing.{same_text}

-- A number that is missing is 0, a name that is missing the empty one.
pub record File : Type 0 where
  pub index : Option ℕ
  pub name : Text
  pub size : ℕ
  pub downloaded : ℕ
  pub progress : ℕ

-- `file` is what `file_record` reads in a label.
pub record Label : Type 0 where
  pub meta_id : Text
  pub season : Option ℕ
  pub episode : Option ℕ
  pub file : Option (Text × ℕ)
  pub last_source_at : Option ℕ

-- `info_hash` and `wanted_file` are empty where there is none; a label that is empty is none.
pub record Entry : Type 0 where
  pub is_orphan : Bool
  pub info_hash : Text
  pub label : Option Label
  pub files : List File
  pub wanted_file : Text
  pub num_files : ℕ
  pub num_videos : ℕ

unfoldable pub is_complete : File → Bool
is_complete f = ltb 0 f.size && leb f.size f.downloaded || leb 999 f.progress

unfoldable pub is_title : Entry → Bool
unfolding is_empty
is_title e = not e.is_orphan && not (is_empty e.info_hash)

-- A slash, either way.
unfoldable pub is_slash : ℕ → Bool
is_slash c = c == b'/' || c == 92

unfoldable pub has_slash : Text → Bool
unfolding is_slash
has_slash [] = false
has_slash (c ∷ s) = is_slash c || has_slash s

-- `_basename`
unfoldable pub basename : Text → Text
unfolding is_slash has_slash
basename [] = []
basename (c ∷ s) = let rest = basename s in if is_slash c || has_slash s then rest else c ∷ s

unfoldable pub is_addressable : File → Bool
is_addressable f = elim f.index [ none ↦ false | some i ↦ true ]

unfoldable pub addressable : List File → List File
unfolding keep is_addressable
addressable files = keep is_addressable files

-- The largest, the first on a tie, from the best so far.
unfoldable pub largest : File → List File → File
largest best [] = best
largest best (f ∷ fs) = largest (if ltb best.size f.size then f else best) fs

-- Its index, once all of it is there.
unfoldable pub offered : File → Option ℕ
unfolding is_complete
offered f = if is_complete f then f.index else none

unfoldable pub find_named : Text → List File → Option File
unfolding same_text basename
find_named base [] = none
find_named base (f ∷ fs) = if same_text (basename f.name) base then some f else find_named base fs

unfoldable pub lone_index : List File → Option ℕ
unfolding is_complete
lone_index [] = some 0
lone_index (f ∷ []) = if is_complete f then some 0 else none
lone_index (f ∷ g ∷ fs) = none

unfoldable pub main_index : List File → List File → Option ℕ
unfolding offered largest lone_index
main_index [] files = lone_index files
main_index (f ∷ fs) files = offered (largest f fs)

unfoldable pub wanted_or_main : Option File → List File → List File → Option ℕ
unfolding offered main_index
wanted_or_main (some f) with_index files = offered f
wanted_or_main none with_index files = main_index with_index files

unfoldable pub wanted_in : Text → List File → Option File
unfolding find_named basename is_empty
wanted_in wanted fs = if is_empty wanted then none else find_named (basename wanted) fs

unfoldable pub playable_index : Entry → Option ℕ
unfolding wanted_or_main wanted_in addressable
playable_index e =
    let fs = addressable e.files in wanted_or_main (wanted_in e.wanted_file fs) fs e.files

unfoldable pub names_video_episode : ℕ → ℕ → File → Bool
unfolding is_addressable is_video names_episode
names_video_episode season episode f =
    is_addressable f && (is_video f.name && names_episode f.name season episode)

unfoldable pub main_offered : List File → Option ℕ
unfolding offered largest
main_offered [] = none
main_offered (f ∷ fs) = offered (largest f fs)

unfoldable pub episode_index : Entry → ℕ → ℕ → Option ℕ
unfolding main_offered names_video_episode keep
episode_index e season episode = main_offered (keep (names_video_episode season episode) e.files)

-- `\d{1,n}`, for n one more than `k`
unfoldable pub digits_to : ℕ → Matcher
unfolding ◌then◌ one at_most is_digit
digits_to k = one is_digit then at_most k is_digit

-- `(?!26[456](?!\d))`
unfoldable pub no_codec : Matcher
unfolding ◌then◌ exactly one no_digit is_match
no_codec s =
    if is_match ((exactly (codes "26") then one (λ c. leb b'4' c && leb c b'6') then no_digit) s)
    then []
    else s ∷ []

-- `_EPISODE_NAME_RE.search`
unfoldable pub reads_as_episode : Text → Bool
unfolding search_for search_behind ◌then◌ letter digits_to many is_filler no_digit no_codec is_blank
reads_as_episode name =
    search_for
      (letter b's'
        then digits_to 2
        then many is_filler
        then letter b'e'
        then digits_to 3
        then no_digit)
      name
    || search_behind false
        (digits_to 1
          then many is_blank
          then letter b'x'
          then many is_blank
          then no_codec
          then digits_to 2
          then no_digit)
        name

unfoldable pub lone_unread : List File → Bool
unfolding reads_as_episode basename
lone_unread (f ∷ []) = not (reads_as_episode (basename f.name))
lone_unread _ = false

unfoldable pub is_nothing : List File → Bool
is_nothing [] = true
is_nothing (f ∷ fs) = false

-- `_label_alone_names_the_file`
unfoldable pub label_alone_names_the_file : Entry → Bool
unfolding is_empty is_nothing addressable lone_unread
label_alone_names_the_file e =
    not (is_empty e.wanted_file)
    || (is_nothing (addressable e.files)
        || (e.num_videos == 1 || (e.num_files == 1 || lone_unread (addressable e.files))))
