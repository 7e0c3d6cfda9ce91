-- ===== src/Library/Bencode/RoundTrip.antt =====
-- Decoding what was encoded.
use mathlib.Core.List.{append_assoc, append-nil}
use stremio_libtorrent_serve.Base.{
  ℕ, zero, suc, ◌+◌, ◌*◌, ◌≤◌, ◌<◌, ◌≡◌, refl, ap, sym, ◌∙◌, true, false, [], ◌∷◌, ◌++◌, arith,
  length, length-append, has_code, is_digit, print, print-digits, number-print, print_cases, ℤ, pos,
  negsuc,
}
use stremio_libtorrent_serve.Library.Bencode.{
  Bytes, bind, Value, Items, Fields, int, bytes, list, dict, no_items, item, no_fields, field, ok,
  starts_end, max_depth, decode_int, decode_bytes, put_field, decode_value, decode_items,
  decode_fields, whole, bdecode,
}
use stremio_libtorrent_serve.Library.Bencode.Encoding.{
  emit_int, emit_bytes, emit, emit_items, emit_fields, append_fields, Apart, IsShort, IsShortInt,
  Fits, FitsItems, FitsFields, split_at-append, has_code-digits, take_bytes-append,
  put_field-append, append_fields_assoc, integer-emit_int,
}

pub length-append_bytes : (xs ys : Bytes) → length (xs ++ ys) ≡ length xs + length ys
length-append_bytes = length-append

decode_bytes-emit_bytes :
    (s rest : Bytes) → IsShort (length s) → decode_bytes (emit_bytes s ++ rest) ≡ ok (bytes s, rest)
unfolding decode_bytes emit_bytes
decode_bytes-emit_bytes s rest h =
    let n = length s in
    let plain = has_code-digits b':' (print n) (omega arith) (print-digits n) in
    rw (
      append_assoc (print n) (b':' ∷ s) rest,
      split_at-append b':' (print n) (s ++ rest) plain,
      number-print n h,
      take_bytes-append s rest,
    )

decode_value-digit :
    (f d c : ℕ) (s : Bytes)
    → d ≤ max_depth
    → is_digit c ≡ true
    → decode_value (suc f) d (c ∷ s) ≡ decode_bytes (c ∷ s)
unfolding decode_value is_digit
decode_value-digit f d c s h e = ground arith

decode_value-bytes :
    (f d : ℕ) (s rest : Bytes)
    → d ≤ max_depth
    → IsShort (length s)
    → decode_value (suc f) d (emit_bytes s ++ rest) ≡ ok (bytes s, rest)
decode_value-bytes f d s rest h short =
    let (c, t, e, m) = print_cases (length s) in
    let start : emit_bytes s ++ rest ≡ c ∷ (t ++ b':' ∷ s) ++ rest =
      unfold emit_bytes in ap (λ p. (p ++ b':' ∷ s) ++ rest) e in
    ap (decode_value (suc f) d) start
    ∙ decode_value-digit f d c _ h m.head
    ∙ ap decode_bytes (sym start)
    ∙ decode_bytes-emit_bytes s rest short

decode_value-bytes_any :
    (f d : ℕ) (s rest : Bytes)
    → 0 < f
    → d ≤ max_depth
    → IsShort (length s)
    → decode_value f d (emit_bytes s ++ rest) ≡ ok (bytes s, rest)
decode_value-bytes_any zero d s rest p h short = absurd (omega arith)
decode_value-bytes_any (suc f) d s rest p h short = decode_value-bytes f d s rest h short

decode_value-int :
    (f d : ℕ) (s : Bytes) → d ≤ max_depth → decode_value (suc f) d (b'i' ∷ s) ≡ decode_int s
unfolding decode_value
decode_value-int f d s h = ground arith

decode_value-list :
    (f d : ℕ) (s : Bytes)
    → d ≤ max_depth
    → decode_value (suc f) d (b'l' ∷ s)
      ≡ bind (decode_items f (suc d) s) (λ (xs, rest). ok (list xs, rest))
unfolding decode_value
decode_value-list f d s h = ground arith

decode_value-dict :
    (f d : ℕ) (s : Bytes)
    → d ≤ max_depth
    → decode_value (suc f) d (b'd' ∷ s)
      ≡ bind (decode_fields f (suc d) no_fields s) (λ (fs, rest). ok (dict fs, rest))
unfolding decode_value
decode_value-dict f d s h = ground arith

has_code-emit_int : (z : ℤ) → has_code b'e' (emit_int z) ≡ false
unfolding emit_int has_code
has_code-emit_int (pos n) = has_code-digits b'e' (print n) (omega arith) (print-digits n)
has_code-emit_int (negsuc n) =
    has_code-digits b'e' (print (suc n)) (omega arith) (print-digits (suc n))

decode_int-emit_int :
    (z : ℤ) (rest : Bytes)
    → IsShortInt z
    → decode_int ((emit_int z ++ b'e' ∷ []) ++ rest) ≡ ok (int z, rest)
unfolding decode_int
decode_int-emit_int z rest h = rw (
  append_assoc (emit_int z) (b'e' ∷ []) rest,
  split_at-append b'e' (emit_int z) rest (has_code-emit_int z),
  integer-emit_int z h,
)

starts_end-bytes : (s rest : Bytes) → starts_end (emit_bytes s ++ rest) ≡ false
unfolding starts_end emit_bytes is_digit
starts_end-bytes s rest =
    let (c, t, e, m) = print_cases (length s) in let h = m.head in rw e (ground arith)

-- What is encoded never looks like the end of a list.
starts_end-emit : (v : Value) (rest : Bytes) → starts_end (emit v ++ rest) ≡ false
unfolding starts_end emit
starts_end-emit (bytes s) rest = starts_end-bytes s rest
starts_end-emit (int n) rest = refl
starts_end-emit (list xs) rest = refl
starts_end-emit (dict fs) rest = refl

length-emit_pos : (v : Value) → 0 < length (emit v)
unfolding emit emit_bytes
length-emit_pos (bytes s) = omega (arith, length-append {0})
length-emit_pos (int n) = omega arith
length-emit_pos (list xs) = omega arith
length-emit_pos (dict fs) = omega arith

decode_items-more :
    (f d : ℕ) (s : Bytes)
    → starts_end s ≡ false
    → decode_items (suc f) d s
      ≡ bind
          (decode_value f d s)
          (λ (v, rest). bind (decode_items f d rest) (λ (xs, behind). ok (item v xs, behind)))
unfolding decode_items
decode_items-more f d s h = rw h

decode_fields-more :
    (f d : ℕ) (fs : Fields) (s rest behind : Bytes) (k : Bytes) (v : Value)
    → starts_end s ≡ false
    → decode_value f d s ≡ ok (bytes k, rest)
    → decode_value f d rest ≡ ok (v, behind)
    → decode_fields (suc f) d fs s ≡ decode_fields f d (put_field k v fs) behind
unfolding decode_fields
decode_fields-more f d fs s rest behind k v h e e' = rw (h, e, e')

ruleset lengths = (arith, length-append_bytes)

append_fields-nil : (fs : Fields) → append_fields fs no_fields ≡ fs
unfolding append_fields
append_fields-nil no_fields = refl
append_fields-nil (field k v fs) = rw (append_fields-nil fs)

mutual
  unfolding emit decode_value decode_items decode_fields append_fields

  decode_value-emit_all :
      (v : Value) (f d : ℕ) (rest : Bytes)
      → 2 * length (emit v) < f
      → Fits d v
      → decode_value f d (emit v ++ rest) ≡ ok (v, rest)
  decode_value-emit_all v zero d rest h fits = absurd (omega arith)
  decode_value-emit_all (int n) (suc f) d rest h fits =
      decode_value-int f d ((emit_int n ++ b'e' ∷ []) ++ rest) fits.0
      ∙ decode_int-emit_int n rest fits.1
  decode_value-emit_all (bytes s) (suc f) d rest h fits =
      decode_value-bytes f d s rest fits.0 fits.1
  decode_value-emit_all (list xs) (suc f) d rest h fits =
      decode_value-list f d (emit_items xs ++ rest) fits.0
      ∙ ap (λ o. bind o (λ (ys, left). ok (list ys, left)))
          (decode_items-emit xs f (suc d) rest (omega arith) fits.1)
  decode_value-emit_all (dict fs) (suc f) d rest h fits =
      decode_value-dict f d (emit_fields fs ++ rest) fits.0
      ∙ ap (λ o. bind o (λ (gs, left). ok (dict gs, left)))
          (decode_fields-emit fs no_fields f (suc d) rest (omega arith) fits.1 fits.2)

  decode_items-emit :
      (xs : Items) (f d : ℕ) (rest : Bytes)
      → 2 * length (emit_items xs) + 1 < f
      → FitsItems d xs
      → decode_items f d (emit_items xs ++ rest) ≡ ok (xs, rest)
  decode_items-emit xs zero d rest h fits = absurd (omega arith)
  decode_items-emit no_items (suc f) d rest h fits = refl
  decode_items-emit (item v xs) (suc f) d rest h fits = rw (
    append_assoc (emit v) (emit_items xs) rest,
    decode_items-more f d _ (starts_end-emit v (emit_items xs ++ rest)),
    decode_value-emit_all v f d (emit_items xs ++ rest) (omega lengths) fits.0,
    decode_items-emit xs f d rest (omega (lengths, length-emit_pos v)) fits.1,
  )

  decode_fields-emit :
      (fs gs : Fields) (f d : ℕ) (rest : Bytes)
      → 2 * length (emit_fields fs) + 1 < f
      → Apart gs fs
      → FitsFields d fs
      → decode_fields f d gs (emit_fields fs ++ rest) ≡ ok (append_fields gs fs, rest)
  decode_fields-emit fs gs zero d rest h apart fits = absurd (omega arith)
  decode_fields-emit no_fields gs (suc f) d rest h apart fits =
      ap (λ g. ok (g, rest)) (sym (append_fields-nil gs))
  decode_fields-emit (field k v fs) gs (suc f) d rest h apart fits =
      let after = emit_fields fs ++ rest in
      let key = decode_value-bytes_any f d k (emit v ++ after) (omega arith) fits.0 fits.1 in
      ap (decode_fields (suc f) d gs) (
        append_assoc (emit_bytes k) (emit v ++ emit_fields fs) rest
        ∙ ap (λ t. emit_bytes k ++ t) (append_assoc (emit v) (emit_fields fs) rest))
      ∙ decode_fields-more f d gs (emit_bytes k ++ (emit v ++ after)) (emit v ++ after) after k v
          (starts_end-bytes k (emit v ++ after)) key
          (decode_value-emit_all v f d after (omega lengths) fits.2)
      ∙ ap (λ g. decode_fields f d g after) (put_field-append k v gs apart.0)
      ∙ decode_fields-emit fs (append_fields gs (field k v no_fields)) f d rest
          (omega (lengths, length-emit_pos v)) apart.1 fits.3
      ∙ ap (λ g. ok (g, rest)) (append_fields_assoc gs (field k v no_fields) fs)

-- A value that fits, nested no deeper than allowed, with no key twice and with numerals that Python
-- reads, decodes from its encoding to itself.
pub bdecode-emit : (v : Value) → Fits 0 v → bdecode (emit v) ≡ ok v
unfolding bdecode whole
bdecode-emit v h =
    let all = decode_value-emit_all v (2 * length (emit v) + 1) 0 [] (omega arith) h in
    rw (rw append-nil at all)
