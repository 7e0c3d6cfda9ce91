-- ===== src/Library/Listing.antt =====
-- The file list of src/stremiosrv/library/torrentfiles.py: `parse_info` and `_read`.
pub mod Numbering
pub mod Inside
mod Tests
use stremio_libtorrent_serve.Base.{
  ℕ, suc, Bool, true, false, not, ◌&&◌, ◌||◌, List, [], ◌∷◌, Option, none, some, String, length,
  ltb, leb, if◌then◌else◌, codes, has_code, ℤ,
}
use stremio_libtorrent_serve.Library.Bencode.{
  Bytes, Value, Items, Fields, Outcome, int, bytes, list, dict, no_items, item, no_fields, field,
  ok, failed, out_of_fuel, same_bytes, bdecode,
}

-- A part of a path stands by its bytes: decoding them keeps every ASCII character.
pub record TorrentFile : Type 0 where
  pub index : ℕ
  pub parts : List Bytes
  pub size : ℤ

pub record Listing : Type 0 where
  pub count : ℕ
  pub files : List TorrentFile

-- `mapping.get(key)`
unfoldable pub get_field : Bytes → Fields → Option Value
unfolding same_bytes
get_field k no_fields = none
get_field k (field j v fs) = if same_bytes k j then some v else get_field k fs

-- `_safe`
unfoldable pub is_safe : Bytes → Bool
unfolding same_bytes has_code
is_safe [] = false
is_safe (c ∷ part) =
    let p = c ∷ part in
    not (same_bytes p (codes "."))
    && not (same_bytes p (codes ".."))
    && not (has_code b'/' p)
    && not (has_code 92 p)
    && not (has_code 0 p)

unfoldable pub all_safe : List Bytes → Bool
unfolding is_safe
all_safe [] = true
all_safe (p ∷ parts) = is_safe p && all_safe parts

-- A pad file or a symlink.
unfoldable pub has_no_content : Option Value → Bool
unfolding has_code
has_no_content (some (bytes attr)) = has_code b'p' attr || has_code b'l' attr
has_no_content _ = false

unfoldable pub path_value : Option Value → Option Value → Option Value
path_value (some (list xs)) path = some (list xs)
path_value _ path = path

-- The items, if all of them are bytes.
unfoldable pub all_bytes : Items → Option (List Bytes)
all_bytes no_items = some []
all_bytes (item (bytes p) xs) = elim (all_bytes xs) [ none ↦ none | some ps ↦ some (p ∷ ps) ]
all_bytes (item v xs) = none

unfoldable pub parts_of : Option Value → Option (List Bytes)
unfolding all_bytes
parts_of (some (list (item v xs))) = all_bytes (item v xs)
parts_of _ = none

-- What the loop of `parse_info` makes of a file: None for all, none of its own, or one.
pub data Entry : Type 0 where
  invalid hidden : Entry
  shown : List Bytes → ℤ → Entry

unfoldable pub with_parts : Option (List Bytes) → ℤ → Entry
unfolding all_safe
with_parts none size = invalid
with_parts (some ps) size = if all_safe ps then shown ps size else hidden

unfoldable pub with_length : Option Value → Fields → Entry
unfolding has_no_content get_field with_parts parts_of path_value
with_length (some (int size)) f =
    if has_no_content (get_field (codes "attr") f)
    then hidden
    else with_parts
        (parts_of (path_value (get_field (codes "path.utf-8") f) (get_field (codes "path") f))) size
with_length _ f = invalid

unfoldable pub entry_of : Value → Entry
unfolding with_length get_field
entry_of (dict f) = with_length (get_field (codes "length") f) f
entry_of _ = invalid

unfoldable pub add_entry : ℕ → Entry → Option (List TorrentFile) → Option (List TorrentFile)
add_entry i invalid rest = none
add_entry i hidden rest = rest
add_entry i (shown ps n) none = none
add_entry i (shown ps n) (some fs) = some (record { index = i; parts = ps; size = n } ∷ fs)

-- The loop, from the position of the first of the items.
unfoldable pub list_files : ℕ → Items → Option (List TorrentFile)
unfolding entry_of add_entry
list_files i no_items = some []
list_files i (item v xs) = add_entry i (entry_of v) (list_files (suc i) xs)

unfoldable pub count_items : Items → ℕ
count_items no_items = 0
count_items (item v xs) = suc (count_items xs)

unfoldable pub listing_of : ℕ → Option (List TorrentFile) → Option Listing
listing_of n none = none
listing_of n (some fs) = some (record { count = n; files = fs })

unfoldable pub single_file : Option Value → Option Listing
single_file (some (int n)) =
    some (record { count = 1; files = record { index = 0; parts = []; size = n } ∷ [] })
single_file _ = none

unfoldable pub info_listing : Option Value → Fields → Option Listing
unfolding list_files count_items listing_of single_file get_field
info_listing (some (list xs)) info = listing_of (count_items xs) (list_files 0 xs)
info_listing _ info = single_file (get_field (codes "length") info)

unfoldable pub parse_info : Value → Option Listing
unfolding info_listing get_field
parse_info (dict info) = info_listing (get_field (codes "files") info) info
parse_info _ = none

-- `_MAX_RECORD_BYTES`
abbrev pub max_record_bytes : ℕ
max_record_bytes = 33554432

unfoldable pub found_or_empty : Option Listing → Listing
found_or_empty (some l) = l
found_or_empty none = record { count = 0; files = [] }

unfoldable pub listing_in : Option Value → Option Listing
unfolding parse_info found_or_empty
listing_in (some (dict info)) = some (found_or_empty (parse_info (dict info)))
listing_in _ = none

unfoldable pub record_listing : Outcome Value → Option Listing
unfolding listing_in get_field
record_listing (ok (dict f)) = listing_in (get_field (codes "info") f)
record_listing _ = none

-- `_read`, without what is kept of earlier calls; `none` is a record that cannot be opened.
unfoldable pub read_listing : Option Bytes → Option Listing
unfolding record_listing bdecode
read_listing none = none
read_listing (some buf) =
    if ltb max_record_bytes (length buf) then none else record_listing (bdecode buf)
