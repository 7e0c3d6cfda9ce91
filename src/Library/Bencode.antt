-- ===== src/Library/Bencode.antt =====
-- The decoder of src/stremiosrv/library/torrentfiles.py: `bdecode` and `_decode`.
pub mod Total
pub mod Encoding
pub mod RoundTrip
use stremio_libtorrent_serve.Base.{
  ℕ, zero, suc, ◌+◌, ◌*◌, Bool, true, false, not, ◌&&◌, ◌||◌, List, [], ◌∷◌, Option, none, some,
  length, ltb, ◌==◌, if◌then◌else◌, is_digit, all_codes, number, is_decimal, ℤ, pos, negsuc,
  negated,
}

-- A buffer, and what is left of it from a position.
abbrev pub Bytes : Type 0
Bytes = List ℕ

mutual
  pub data Value : Type 0 where
    int : ℤ → Value
    bytes : Bytes → Value
    list : Items → Value
    dict : Fields → Value

  pub data Items : Type 0 where
    no_items : Items
    item : Value → Items → Items

  -- A dictionary in insertion order.
  pub data Fields : Type 0 where
    no_fields : Fields
    field : Bytes → Value → Fields → Fields

-- `failed` is a ValueError; `out_of_fuel` belongs to the model only.
pub data Outcome {ℓ} (A : Type ℓ) : Type ℓ where
  ok : A → Outcome A
  failed out_of_fuel : Outcome A

abbrev pub bind {ℓ κ} : {A : Type ℓ} {B : Type κ} → Outcome A → (A → Outcome B) → Outcome B
bind (ok a) f = f a
bind failed f = failed
bind out_of_fuel f = out_of_fuel

abbrev pub or_fail {ℓ} : {A : Type ℓ} → Option A → Outcome A
or_fail none = failed
or_fail (some a) = ok a

-- `buf.index(c, pos)`, as what stands before the byte and behind it.
unfoldable pub split_at : ℕ → Bytes → Outcome (Bytes × Bytes)
split_at c [] = failed
split_at c (b ∷ s) =
    if b == c then ok ([], s) else bind (split_at c s) (λ (front, rest). ok (b ∷ front, rest))

-- `digits.lstrip(b"-")`
unfoldable pub strip_minus : Bytes → Bytes
strip_minus [] = []
strip_minus (c ∷ s) = if c == b'-' then strip_minus s else c ∷ s

-- `digits.startswith(b"-0")`
unfoldable pub starts_minus_zero : Bytes → Bool
starts_minus_zero (a ∷ b ∷ s) = a == b'-' && b == b'0'
starts_minus_zero _ = false

-- `digits.startswith(b"0") and len(digits) > 1`
unfoldable pub is_padded : Bytes → Bool
is_padded (a ∷ b ∷ s) = a == b'0'
is_padded _ = false

-- `int(digits)` for a text that starts with no space
unfoldable pub signed : Bytes → Outcome ℤ
unfolding negated
signed [] = failed
signed (c ∷ s) =
    if c == b'-'
    then bind (or_fail (number s)) (λ n. ok (negated n))
    else bind (or_fail (number (c ∷ s))) (λ n. ok (pos n))

-- The integer between `i` and `e`.
unfoldable pub integer : Bytes → Outcome ℤ
unfolding strip_minus starts_minus_zero is_padded signed
integer digits =
    if not (is_decimal (strip_minus digits)) || (starts_minus_zero digits || is_padded digits)
    then failed
    else signed digits

-- `buf[start:start + length]` and what follows it, where the buffer is long enough
unfoldable pub take_bytes : ℕ → Bytes → Outcome (Bytes × Bytes)
take_bytes zero s = ok ([], s)
take_bytes (suc n) [] = failed
take_bytes (suc n) (c ∷ s) = bind (take_bytes n s) (λ (front, rest). ok (c ∷ front, rest))

unfoldable pub decode_int : Bytes → Outcome (Value × Bytes)
unfolding integer split_at
decode_int s = bind (split_at b'e' s) λ (digits, rest). bind (integer digits) λ n. ok (int n, rest)

unfoldable pub decode_bytes : Bytes → Outcome (Value × Bytes)
unfolding split_at take_bytes
decode_bytes s = bind (split_at b':' s) λ (digits, rest).
    bind (or_fail (number digits))
      λ n. bind (take_bytes n rest) λ (front, behind). ok (bytes front, behind)

unfoldable pub same_bytes : Bytes → Bytes → Bool
same_bytes [] [] = true
same_bytes (a ∷ s) (b ∷ t) = a == b && same_bytes s t
same_bytes _ _ = false

-- `mapping[key] = value`
unfoldable pub put_field : Bytes → Value → Fields → Fields
unfolding same_bytes
put_field k v no_fields = field k v no_fields
put_field k v (field j w fs) = if same_bytes k j then field k v fs else field j w (put_field k v fs)

unfoldable pub starts_end : Bytes → Bool
starts_end [] = false
starts_end (c ∷ s) = c == b'e'

unfoldable pub tail : Bytes → Bytes
tail [] = []
tail (c ∷ s) = s

-- `isinstance(key, bytes)`
unfoldable pub key_of : Value → Outcome Bytes
key_of (bytes k) = ok k
key_of _ = failed

-- `_MAX_DEPTH`
abbrev pub max_depth : ℕ
max_depth = 64

-- `_decode`. Each call costs a unit of fuel; `Total` says how much is enough.
unfoldable mutual
  unfolding decode_int decode_bytes put_field starts_end tail key_of is_digit number is_decimal

  pub decode_value : ℕ → ℕ → Bytes → Outcome (Value × Bytes)
  decode_value zero depth s = out_of_fuel
  decode_value (suc f) depth [] = failed
  decode_value (suc f) depth (c ∷ s) =
      let items = bind (decode_items f (suc depth) s) λ (xs, rest). ok (list xs, rest) in
      let fields =
        bind (decode_fields f (suc depth) no_fields s) λ (fs, rest). ok (dict fs, rest) in
      if ltb max_depth depth
      then failed
      else if c == b'i'
      then decode_int s
      else if c == b'l'
      then items
      else if c == b'd'
      then fields
      else if is_digit c
      then decode_bytes (c ∷ s)
      else failed

  -- The loop of a list, from its first item or the next.
  pub decode_items : ℕ → ℕ → Bytes → Outcome (Items × Bytes)
  decode_items zero depth s = out_of_fuel
  decode_items (suc f) depth s =
      let more =
        bind (decode_value f depth s)
          λ (v, rest). bind (decode_items f depth rest) λ (xs, behind). ok (item v xs, behind) in
      if starts_end s then ok (no_items, tail s) else more

  -- The loop of a dictionary, with the fields read so far.
  pub decode_fields : ℕ → ℕ → Fields → Bytes → Outcome (Fields × Bytes)
  decode_fields zero depth fs s = out_of_fuel
  decode_fields (suc f) depth fs s =
      let more = bind (decode_value f depth s) λ (k, rest). bind (key_of k) λ key.
        bind (decode_value f depth rest)
          λ (v, behind). decode_fields f depth (put_field key v fs) behind in
      if starts_end s then ok (fs, tail s) else more

unfoldable pub whole : Value × Bytes → Outcome Value
whole (v, []) = ok v
whole (v, c ∷ s) = failed

unfoldable pub bdecode : Bytes → Outcome Value
unfolding whole
bdecode s = bind (decode_value (2 * length s + 1) 0 s) whole
