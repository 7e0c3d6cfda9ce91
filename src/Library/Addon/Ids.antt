-- ===== src/Library/Addon/Ids.antt =====
-- `format_id` and `parse_id`: the ids of the library's titles. A text is its code points.
pub mod RoundTrip
use stremio_libtorrent_serve.Pins.Names.{lower_code}
use stremio_libtorrent_serve.Base.{
  ℕ, zero, suc, ◌+◌, ◌-◌, Bool, true, false, not, ◌&&◌, ◌||◌, List, [], ◌∷◌, ◌++◌, Option, none,
  some, leb, ◌==◌, if◌then◌else◌, codes, map, is_lower_hex, is_decimal, max_digits, print, value,
  length, number, after_prefix,
}

abbrev pub Text : Type 0
Text = List ℕ

-- `ID_PREFIX`
abbrev pub id_prefix : Text
id_prefix = codes "stremiosrv:"

unfoldable pub index_suffix : Option ℕ → Text
index_suffix none = []
index_suffix (some i) = b':' ∷ print i

unfoldable pub format_id : Text → Option ℕ → Text
unfolding lower_code index_suffix
format_id info_hash file_idx = id_prefix ++ (map lower_code info_hash ++ index_suffix file_idx)

-- `s.partition(":")`, less the separator
unfoldable pub partition_colon : Text → Text × Text
partition_colon [] = ([], [])
partition_colon (c ∷ s) =
    let (front, rest) = partition_colon s in if c == b':' then ([], s) else (c ∷ front, rest)

-- `^[0-9a-f]{40}$`, from the number of digits to come. `$` stands at the end and before a line feed
-- at the end.
unfoldable pub is_hex_run : ℕ → Text → Bool
unfolding is_lower_hex
is_hex_run zero [] = true
is_hex_run zero (c ∷ []) = c == 10
is_hex_run zero (c ∷ d ∷ s) = false
is_hex_run (suc n) [] = false
is_hex_run (suc n) (c ∷ s) = is_lower_hex c && is_hex_run n s

-- `int(idx)` of decimal digits; more of them than Python reads is a ValueError.
pub data Parsed : Type 0 where
  not_ours value_error : Parsed
  id : Text → Option ℕ → Parsed

unfoldable pub with_index : Text → Text → Parsed
unfolding is_decimal
with_index ih [] = id ih none
with_index ih (c ∷ s) =
    if is_decimal (c ∷ s)
    then if leb (length (c ∷ s)) max_digits then id ih (some (value 0 (c ∷ s))) else value_error
    else not_ours

unfoldable pub parse_rest : Option Text → Parsed
unfolding partition_colon lower_code is_hex_run with_index
parse_rest none = not_ours
parse_rest (some s) =
    let (front, idx) = partition_colon s in
    let ih = map lower_code front in if is_hex_run 40 ih then with_index ih idx else not_ours

unfoldable pub parse_id : Text → Parsed
unfolding parse_rest after_prefix
parse_id s = parse_rest (after_prefix id_prefix s)
