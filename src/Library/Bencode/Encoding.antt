-- ===== src/Library/Bencode/Encoding.antt =====
-- The encoding of a value, and what the decoder makes of its parts.
use stremio_libtorrent_serve.Base.{
  ℕ, zero, suc, ◌≤◌, ◌<◌, ◌≡◌, refl, Bool, true, false, ◌||◌, [], ◌∷◌, ◌++◌, arith, length,
  is_digit, all_codes, has_code, print, max_digits, number-print, print_cases, IsNumeral, number,
  is_decimal, all_codes_cons, ℤ, pos, negsuc, negated,
}
use stremio_libtorrent_serve.Library.Bencode.{
  Bytes, Value, Items, Fields, int, bytes, list, dict, no_items, item, no_fields, field, ok, bind,
  split_at, is_padded, integer, take_bytes, same_bytes, or_fail, put_field, max_depth,
}

unfoldable pub emit_int : ℤ → Bytes
emit_int (pos n) = print n
emit_int (negsuc n) = b'-' ∷ print (suc n)

unfoldable pub emit_bytes : Bytes → Bytes
emit_bytes s = print (length s) ++ b':' ∷ s

-- The encoding of a value.
unfoldable mutual
  pub emit : Value → Bytes
  emit (int n) = b'i' ∷ emit_int n ++ b'e' ∷ []
  emit (bytes s) = emit_bytes s
  emit (list xs) = b'l' ∷ emit_items xs
  emit (dict fs) = b'd' ∷ emit_fields fs

  pub emit_items : Items → Bytes
  emit_items no_items = b'e' ∷ []
  emit_items (item v xs) = emit v ++ emit_items xs

  pub emit_fields : Fields → Bytes
  emit_fields no_fields = b'e' ∷ []
  emit_fields (field k v fs) = emit_bytes k ++ (emit v ++ emit_fields fs)

unfoldable pub has_key : Bytes → Fields → Bool
has_key k no_fields = false
has_key k (field j v fs) = same_bytes k j || has_key k fs

unfoldable pub append_fields : Fields → Fields → Fields
append_fields no_fields gs = gs
append_fields (field k v fs) gs = field k v (append_fields fs gs)

-- No key of the second is in the first, or before it in the second.
abbrev pub Apart : Fields → Fields → Type 0
Apart fs no_fields = Unit
Apart fs (field k v gs) = (has_key k fs ≡ false) × Apart (append_fields fs (field k v no_fields)) gs

-- A numeral that Python reads.
abbrev pub IsShort : ℕ → Type 0
IsShort n = length (print n) ≤ max_digits

abbrev pub IsShortInt : ℤ → Type 0
IsShortInt (pos n) = IsShort n
IsShortInt (negsuc n) = IsShort (suc n)

-- What may stand at a depth: nested no deeper than allowed, no key twice, numerals short enough.
abbrev mutual
  pub Fits : ℕ → Value → Type 0
  Fits d (int n) = (d ≤ max_depth) × IsShortInt n
  Fits d (bytes s) = (d ≤ max_depth) × IsShort (length s)
  Fits d (list xs) = (d ≤ max_depth) × FitsItems (suc d) xs
  Fits d (dict fs) = (d ≤ max_depth) × Apart no_fields fs × FitsFields (suc d) fs

  pub FitsItems : ℕ → Items → Type 0
  FitsItems d no_items = Unit
  FitsItems d (item v xs) = Fits d v × FitsItems d xs

  pub FitsFields : ℕ → Fields → Type 0
  FitsFields d no_fields = Unit
  FitsFields d (field k v fs) = (d ≤ max_depth) × IsShort (length k) × Fits d v × FitsFields d fs

pub split_at-append :
    (c : ℕ) (s rest : Bytes) → has_code c s ≡ false → split_at c (s ++ c ∷ rest) ≡ ok (s, rest)
unfolding split_at has_code
split_at-append c [] rest h = ground arith
split_at-append c (b ∷ s) rest h = ground (arith, split_at-append c s rest)

pub has_code-digits :
    (c : ℕ) (s : Bytes) → b'9' < c → all_codes is_digit s ≡ true → has_code c s ≡ false
unfolding has_code all_codes is_digit
has_code-digits c [] h d = refl
has_code-digits c (b ∷ s) h d = ground (arith, has_code-digits c s h)

pub take_bytes-append : (s rest : Bytes) → take_bytes (length s) (s ++ rest) ≡ ok (s, rest)
unfolding take_bytes
take_bytes-append [] rest = refl
take_bytes-append (c ∷ s) rest = rw (take_bytes-append s rest) refl

pub put_field-append :
    (k : Bytes) (v : Value) (fs : Fields)
    → has_key k fs ≡ false
    → put_field k v fs ≡ append_fields fs (field k v no_fields)
unfolding put_field has_key append_fields
put_field-append k v no_fields h = refl
put_field-append k v (field j w fs) h = ground (arith, put_field-append k v fs)

pub append_fields_assoc :
    (fs gs hs : Fields)
    → append_fields (append_fields fs gs) hs ≡ append_fields fs (append_fields gs hs)
unfolding append_fields
append_fields_assoc no_fields gs hs = refl
append_fields_assoc (field k v fs) gs hs = rw (append_fields_assoc fs gs hs)

is_padded-numeral : (n c : ℕ) (s : Bytes) → IsNumeral n c s → is_padded (c ∷ s) ≡ false
unfolding is_padded
is_padded-numeral n c [] d = refl
is_padded-numeral zero c (b ∷ s) d = let e = d.single refl in cc
is_padded-numeral (suc n) c (b ∷ s) d = let l = d.leading (omega arith) in ground arith

integer-digits :
    (c : ℕ) (s : Bytes)
    → is_digit c ≡ true
    → all_codes is_digit s ≡ true
    → is_padded (c ∷ s) ≡ false
    → integer (c ∷ s) ≡ bind (or_fail (number (c ∷ s))) (λ n. ok (pos n))
unfolding integer is_decimal
integer-digits c [] h d p = ground (arith, all_codes_cons c [] h d)
integer-digits c (b ∷ s) h d p = ground (arith, all_codes_cons c (b ∷ s) h d)

integer-minus :
    (c : ℕ) (s : Bytes)
    → is_digit c ≡ true
    → b'0' < c
    → all_codes is_digit s ≡ true
    → integer (b'-' ∷ c ∷ s) ≡ bind (or_fail (number (c ∷ s))) (λ n. ok (negated n))
unfolding integer is_decimal
integer-minus c s h l d = ground (arith, all_codes_cons c s h d)

-- An integer reads back.
pub integer-emit_int : (z : ℤ) → IsShortInt z → integer (emit_int z) ≡ ok z
unfolding emit_int negated
integer-emit_int (pos n) h =
    let (c, s, e, d) = print_cases n in
    rw (e, integer-digits c s d.head d.digits (is_padded-numeral n c s d), ← e, number-print n h)
integer-emit_int (negsuc n) h =
    let (c, s, e, d) = print_cases (suc n) in
    rw (e, integer-minus c s d.head (d.leading (omega arith)) d.digits, ← e, number-print (suc n) h)
