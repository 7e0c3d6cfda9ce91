-- ===== src/Library/Addon/Ids/RoundTrip.antt =====
-- Reading ids that were formed, and one with a line feed behind it.
use mathlib.Core.List.{append-nil}
use stremio_libtorrent_serve.Pins.Names.{lower_code}
use stremio_libtorrent_serve.Base.{
  ℕ, zero, suc, ◌≤◌, ◌≡◌, refl, ap, ◌∙◌, true, false, [], ◌∷◌, ◌++◌, Option, none, some, arith, map,
  length, ◌==◌, is_lower_hex, is_decimal, max_digits, print, print-digits, print_cases, value-print,
  after_prefix-append,
}
use stremio_libtorrent_serve.Library.Addon.Ids.{
  Text, id_prefix, index_suffix, format_id, partition_colon, is_hex_run, id, with_index, parse_rest,
  parse_id,
}

-- So many hexadecimal digits, of either case.
abbrev pub IsHex : ℕ → Text → Type 0
IsHex zero [] = Unit
IsHex zero (c ∷ s) = ⊥
IsHex (suc n) [] = ⊥
IsHex (suc n) (c ∷ s) = (is_lower_hex (lower_code c) ≡ true) × IsHex n s

hex-colon : (c : ℕ) → is_lower_hex c ≡ true → (c == b':') ≡ false
unfolding is_lower_hex
hex-colon c h = ground arith

partition_colon-hex :
    (n : ℕ) (ih : Text)
    → IsHex n ih
    → (partition_colon (map lower_code ih) ≡ (map lower_code ih, []))
      × ((s : Text) → partition_colon (map lower_code ih ++ b':' ∷ s) ≡ (map lower_code ih, s))
unfolding partition_colon
partition_colon-hex zero [] h = (refl, λ s. refl)
partition_colon-hex zero (c ∷ ih) h = absurd h
partition_colon-hex (suc n) [] h = absurd h
partition_colon-hex (suc n) (c ∷ ih) h =
    let (alone, followed) = partition_colon-hex n ih h.1 in
    let plain = hex-colon (lower_code c) h.0 in
    (rw (plain, alone) refl, λ s. rw (plain, followed s) refl)

partition_colon-line_feed :
    (n : ℕ) (ih : Text)
    → IsHex n ih
    → partition_colon (map lower_code ih ++ 10 ∷ []) ≡ (map lower_code ih ++ 10 ∷ [], [])
unfolding partition_colon
partition_colon-line_feed zero [] h = refl
partition_colon-line_feed zero (c ∷ ih) h = absurd h
partition_colon-line_feed (suc n) [] h = absurd h
partition_colon-line_feed (suc n) (c ∷ ih) h =
    rw (hex-colon (lower_code c) h.0, partition_colon-line_feed n ih h.1) refl

lower_code_twice : (c : ℕ) → lower_code (lower_code c) ≡ lower_code c
unfolding lower_code
lower_code_twice c = ground arith

map-lower_twice : (s : Text) → map lower_code (map lower_code s) ≡ map lower_code s
map-lower_twice [] = refl
map-lower_twice (c ∷ s) = rw (lower_code_twice c, map-lower_twice s)

map-lower_line_feed :
    (s : Text) → map lower_code (map lower_code s ++ 10 ∷ []) ≡ map lower_code s ++ 10 ∷ []
unfolding lower_code
map-lower_line_feed [] = refl
map-lower_line_feed (c ∷ s) = rw (lower_code_twice c, map-lower_line_feed s)

is_hex_run-hex :
    (n : ℕ) (ih : Text)
    → IsHex n ih
    → (is_hex_run n (map lower_code ih) ≡ true)
      × (is_hex_run n (map lower_code ih ++ 10 ∷ []) ≡ true)
unfolding is_hex_run
is_hex_run-hex zero [] h = (refl, refl)
is_hex_run-hex zero (c ∷ ih) h = absurd h
is_hex_run-hex (suc n) [] h = absurd h
is_hex_run-hex (suc n) (c ∷ ih) h =
    let (alone, followed) = is_hex_run-hex n ih h.1 in (rw (h.0, alone), rw (h.0, followed))

parse_rest-parted :
    (s ih d : Text)
    → partition_colon s ≡ (ih, d)
    → is_hex_run 40 (map lower_code ih) ≡ true
    → parse_rest (some s) ≡ with_index (map lower_code ih) d
unfolding parse_rest
parse_rest-parted s ih d e h = rw (e, h) refl

with_index-print :
    (ih : Text) (i : ℕ) → length (print i) ≤ max_digits → with_index ih (print i) ≡ id ih (some i)
unfolding with_index is_decimal
with_index-print ih i h =
    let (c, s, e, d) = print_cases i in
    let digits = print-digits i in
    let reads = value-print i in rw e (ground (arith, ap length e, rw e at digits, rw e at reads))

-- An index that Python reads back.
abbrev pub IsShortIndex : Option ℕ → Type 0
IsShortIndex none = Unit
IsShortIndex (some i) = length (print i) ≤ max_digits

-- The id that is formed from an infohash, of either case, and an index reads as the infohash in
-- lower case and that index.
pub parse_id-format_id :
    (ih : Text) (i : Option ℕ)
    → IsHex 40 ih
    → IsShortIndex i
    → parse_id (format_id ih i) ≡ id (map lower_code ih) i
unfolding parse_id format_id index_suffix
parse_id-format_id ih none h short =
    let front = map lower_code ih in
    let twice = map-lower_twice ih in
    let hex = ap (is_hex_run 40) twice ∙ (is_hex_run-hex 40 ih h).0 in
    ap parse_rest (after_prefix-append id_prefix (front ++ []))
    ∙ ap (λ t. parse_rest (some t)) (append-nil front)
    ∙ parse_rest-parted front front [] (partition_colon-hex 40 ih h).0 hex
    ∙ ap (λ t. with_index t []) twice
    ∙ (unfold with_index in refl)
parse_id-format_id ih (some i) h short =
    let front = map lower_code ih in
    let twice = map-lower_twice ih in
    let hex = ap (is_hex_run 40) twice ∙ (is_hex_run-hex 40 ih h).0 in
    ap parse_rest (after_prefix-append id_prefix (front ++ b':' ∷ print i))
    ∙ parse_rest-parted (front ++ b':' ∷ print i) front (print i)
        ((partition_colon-hex 40 ih h).1 (print i)) hex
    ∙ ap (λ t. with_index t (print i)) twice
    ∙ with_index-print front i short

-- An infohash with a line feed behind it is taken for one, line feed included.
pub parse_id_line_feed :
    (ih : Text)
    → IsHex 40 ih
    → parse_id (id_prefix ++ (map lower_code ih ++ 10 ∷ []))
      ≡ id (map lower_code ih ++ 10 ∷ []) none
unfolding parse_id
parse_id_line_feed ih h =
    let front = map lower_code ih ++ 10 ∷ [] in
    let twice : map lower_code front ≡ front = map-lower_line_feed ih in
    let hex = ap (is_hex_run 40) twice ∙ (is_hex_run-hex 40 ih h).1 in
    ap parse_rest (after_prefix-append id_prefix front)
    ∙ parse_rest-parted front front [] (partition_colon-line_feed 40 ih h) hex
    ∙ ap (λ t. with_index t []) twice
    ∙ (unfold with_index in refl)
