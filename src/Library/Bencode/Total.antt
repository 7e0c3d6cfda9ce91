-- ===== src/Library/Bencode/Total.antt =====
-- The fuel of `bdecode`, and the depth of what it returns.
use stremio_libtorrent_serve.Base.{
  ℕ, zero, suc, ◌+◌, ◌*◌, ◌≤◌, ◌<◌, max, ◌≡◌, refl, Bool, true, false, [], ◌∷◌, Option, none, some,
  arith, length, ltb, ◌==◌, if◌then◌else◌, is_digit, number,
}
use stremio_libtorrent_serve.Library.Bencode.{
  Bytes, Value, Items, Fields, Outcome, int, bytes, list, dict, no_items, item, no_fields, field,
  ok, failed, bind, or_fail, split_at, signed, integer, take_bytes, decode_int, decode_bytes,
  put_field, starts_end, tail, key_of, max_depth, decode_value, decode_items, decode_fields, whole,
  bdecode,
}

-- How many lists and dictionaries stand inside one another.
unfoldable mutual
  pub nest : Value → ℕ
  nest (int n) = 0
  nest (bytes s) = 0
  nest (list xs) = suc (nest_items xs)
  nest (dict fs) = suc (nest_fields fs)

  pub nest_items : Items → ℕ
  nest_items no_items = 0
  nest_items (item v xs) = max (nest v) (nest_items xs)

  pub nest_fields : Fields → ℕ
  nest_fields no_fields = 0
  nest_fields (field k v fs) = max (nest v) (nest_fields fs)

-- The run kept within its fuel, and `P` holds of its value if it has one.
pub data Ends {ℓ} {A : Type ℓ} (P : A → Type 0) : Outcome A → Type ℓ where
  ends : {a : A} → P a → Ends P (ok a)
  fails : Ends P failed

module _ {ℓ} {A : Type ℓ} {Q : A → Type 0} where
  Ends-bind {κ} :
      {B : Type κ} {P : B → Type 0} {r : Outcome B} {f : B → Outcome A}
      → Ends P r
      → ((b : B) → P b → Ends Q (f b))
      → Ends Q (bind r f)
  Ends-bind (ends {a} h) k = k a h
  Ends-bind fails k = fails

  Ends-or_fail : (o : Option A) → ((a : A) → Q a) → Ends Q (or_fail o)
  Ends-or_fail none k = fails
  Ends-or_fail (some a) k = ends (k a)

  Ends-if :
      (b : Bool) {r t : Outcome A}
      → (b ≡ true → Ends Q r)
      → (b ≡ false → Ends Q t)
      → Ends Q (if b then r else t)
  Ends-if true h k = h refl
  Ends-if false h k = k refl

  Ends-weaker : {P : A → Type 0} {r : Outcome A} → ((a : A) → P a → Q a) → Ends P r → Ends Q r
  Ends-weaker w (ends {a} h) = ends (w a h)
  Ends-weaker w fails = fails

-- What is left is shorter than `n`.
abbrev Shorter {ℓ} : {A : Type ℓ} → ℕ → A × Bytes → Type 0
Shorter n (a, rest) = length rest < n

abbrev NoLonger {ℓ} : {A : Type ℓ} → ℕ → A × Bytes → Type 0
NoLonger n (a, rest) = length rest ≤ n

split_at-Ends : (c : ℕ) (s : Bytes) → Ends (Shorter (length s)) (split_at c s)
unfolding split_at
split_at-Ends c [] = fails
split_at-Ends c (b ∷ s) =
    Ends-if (b == c) (λ _. ends (omega arith))
      (λ _. Ends-bind (split_at-Ends c s) (λ (front, rest) h. ends (omega arith)))

take_bytes-Ends : (n : ℕ) (s : Bytes) → Ends (NoLonger (length s)) (take_bytes n s)
unfolding take_bytes
take_bytes-Ends zero s = ends (omega arith)
take_bytes-Ends (suc n) [] = fails
take_bytes-Ends (suc n) (c ∷ s) =
    Ends-bind (take_bytes-Ends n s) (λ (front, rest) h. ends (omega arith))

abbrev Any {ℓ} : {A : Type ℓ} → A → Type 0
Any a = Unit

number-Ends : (s : Bytes) → Ends Any (or_fail (number s))
number-Ends s = Ends-or_fail (number s) (λ _. tt)

signed-Ends : (s : Bytes) → Ends Any (signed s)
unfolding signed
signed-Ends [] = fails
signed-Ends (c ∷ s) =
    Ends-if (c == b'-') (λ _. Ends-bind (number-Ends s) (λ _ _. ends tt))
      (λ _. Ends-bind (number-Ends (c ∷ s)) (λ _ _. ends tt))

integer-Ends : (s : Bytes) → Ends Any (integer s)
unfolding integer
integer-Ends s = Ends-if _ (λ _. fails) (λ _. signed-Ends s)

-- A value nested less deep than is left at its depth, with the rest of the input.
abbrev Decoded : ℕ → ℕ → Value × Bytes → Type 0
Decoded n depth (v, rest) = (length rest < n) × (nest v + depth ≤ suc max_depth)

abbrev DecodedItems : ℕ → ℕ → Items × Bytes → Type 0
DecodedItems n depth (xs, rest) = (length rest < n) × (nest_items xs + depth ≤ suc max_depth)

abbrev DecodedFields : ℕ → ℕ → Fields × Bytes → Type 0
DecodedFields n depth (fs, rest) = (length rest < n) × (nest_fields fs + depth ≤ suc max_depth)

decode_int-Ends : (d : ℕ) (s : Bytes) → d ≤ max_depth → Ends (Decoded (length s) d) (decode_int s)
unfolding decode_int nest
decode_int-Ends d s h =
    Ends-bind (split_at-Ends b'e' s)
      (λ (digits, rest) l. Ends-bind (integer-Ends digits) (λ n _. ends (omega arith)))

decode_bytes-Ends :
    (d : ℕ) (s : Bytes) → d ≤ max_depth → Ends (Decoded (length s) d) (decode_bytes s)
unfolding decode_bytes nest
decode_bytes-Ends d s h = Ends-bind (split_at-Ends b':' s) (λ (digits, rest) l.
    Ends-bind (number-Ends digits)
      (λ n _. Ends-bind (take_bytes-Ends n rest) (λ (front, behind) m. ends (omega arith))))

key_of-Ends : (v : Value) → Ends Any (key_of v)
unfolding key_of
key_of-Ends (bytes k) = ends tt
key_of-Ends _ = fails

nest_fields-put_field :
    (k : Bytes) (v : Value) (fs : Fields)
    → nest_fields (put_field k v fs) ≤ max (nest v) (nest_fields fs)
unfolding put_field nest
nest_fields-put_field k v no_fields = omega arith
nest_fields-put_field k v (field j w fs) = ground (arith, nest_fields-put_field k v fs)

length-tail-lt : (s : Bytes) → starts_end s ≡ true → length (tail s) < length s
unfolding starts_end tail
length-tail-lt [] e = cc
length-tail-lt (c ∷ s) e = omega arith

-- The three routines, each with the fuel that suffices for it.
mutual
  unfolding decode_value nest

  decode_value-Ends :
      (f d : ℕ) (s : Bytes) → 2 * length s < f → Ends (Decoded (length s) d) (decode_value f d s)
  decode_value-Ends zero d s h = absurd (omega arith)
  decode_value-Ends (suc f) d [] h = fails
  decode_value-Ends (suc f) d (c ∷ s) h =
      Ends-if (ltb max_depth d) (λ _. fails)
        λ deep.
          let low : d ≤ max_depth = ground arith in
          Ends-if (c == b'i')
            (λ _. Ends-weaker (λ (v, rest) p. omega arith) (decode_int-Ends d s low))
            λ _.
              Ends-if (c == b'l')
                (λ _.
                  Ends-bind (decode_items-Ends f (suc d) s (omega arith) (omega arith))
                    (λ (xs, rest) p. ends (omega arith)))
                λ _.
                  Ends-if (c == b'd')
                    (λ _.
                      Ends-bind
                        (decode_fields-Ends f (suc d) no_fields s (omega arith) (omega arith))
                        (λ (fs, rest) p. ends (omega arith)))
                    λ _. Ends-if (is_digit c) (λ _. decode_bytes-Ends d (c ∷ s) low) (λ _. fails)

  decode_items-Ends :
      (f d : ℕ) (s : Bytes)
      → 2 * length s + 1 < f
      → d ≤ suc max_depth
      → Ends (DecodedItems (length s) d) (decode_items f d s)
  decode_items-Ends zero d s h low = absurd (omega arith)
  decode_items-Ends (suc f) d s h low =
      Ends-if (starts_end s) (λ e. ends (length-tail-lt s e, omega arith))
        λ _. Ends-bind (decode_value-Ends f d s (omega arith)) λ (v, rest) p.
          Ends-bind (decode_items-Ends f d rest (omega arith) low)
            λ (xs, behind) q. ends (omega arith)

  decode_fields-Ends :
      (f d : ℕ) (fs : Fields) (s : Bytes)
      → 2 * length s + 1 < f
      → nest_fields fs + d ≤ suc max_depth
      → Ends (DecodedFields (length s) d) (decode_fields f d fs s)
  decode_fields-Ends zero d fs s h low = absurd (omega arith)
  decode_fields-Ends (suc f) d fs s h low =
      Ends-if (starts_end s) (λ e. ends (length-tail-lt s e, omega arith))
        λ _. Ends-bind (decode_value-Ends f d s (omega arith)) λ (k, rest) p.
          Ends-bind (key_of-Ends k) λ key _.
            Ends-bind (decode_value-Ends f d rest (omega arith)) λ (v, behind) q.
              Ends-weaker (λ (gs, left) m. omega arith)
                (decode_fields-Ends f d (put_field key v fs) behind (omega arith)
                  (omega (arith, nest_fields-put_field key v fs)))

whole-Ends :
    (n : ℕ) (p : Value × Bytes) → Decoded n 0 p → Ends (λ v. nest v ≤ suc max_depth) (whole p)
unfolding whole
whole-Ends n (v, []) h = ends (omega arith)
whole-Ends n (v, c ∷ s) h = fails

-- Whatever the bytes, `bdecode` comes to an end within its fuel: it fails, or returns a value in
-- which at most 65 lists and dictionaries stand inside one another.
pub bdecode-Ends : (s : Bytes) → Ends (λ v. nest v ≤ 65) (bdecode s)
unfolding bdecode
bdecode-Ends s =
    Ends-bind (decode_value-Ends (2 * length s + 1) 0 s (omega arith)) (whole-Ends (length s))
