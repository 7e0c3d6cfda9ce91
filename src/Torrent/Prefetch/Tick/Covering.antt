-- ===== src/Torrent/Prefetch/Tick/Covering.antt =====
-- The pieces of a file: those that a tick asks for, and those of a file that is complete.
use native.Mathlib.Nat.{div-mul-le_self, le-div_iff_mul-le}
use stremio_libtorrent_serve.Base.{
  ℕ, zero, suc, ◌+◌, ◌-◌, ◌/◌, ◌≤◌, ◌<◌, min, ◌≡◌, refl, sym, inl, inr, Bool, true, false, ◌||◌,
  ltb, List, [], ◌∷◌, ◌++◌, Option, none, some, arith, ◌==◌, if◌then◌else◌, Bool-cases, contains,
  number_key,
}
use stremio_libtorrent_serve.Torrent.Prefetch.{
  FileSlot, span, pieces_for_range, head_bytes, head_pieces, tail_pieces, tail_bytes, distinct,
}
use stremio_libtorrent_serve.Torrent.Prefetch.Tick.{Settings, all_there, file_complete, next_pieces}

-- The piece has bytes of the file.
abbrev pub Covers : ℕ → FileSlot → ℕ → Type 0
Covers plen f p = (f.offset / plen ≤ p) × (p ≤ (f.offset + f.size - 1) / plen)

abbrev pub Each : (ℕ → Type 0) → List ℕ → Type 0
Each P [] = Unit {0}
Each P (p ∷ ps) = P p × Each P ps

Each-span : (P : ℕ → Type 0) (a n : ℕ) → ((p : ℕ) → a ≤ p → p < a + n → P p) → Each P (span a n)
unfolding span
Each-span P a zero h = tt
Each-span P a (suc n) h = (
  h a (omega arith) (omega arith),
  Each-span P (suc a) n (λ p l u. h p (omega arith) (omega arith)),
)

Each-append : (P : ℕ → Type 0) (ps qs : List ℕ) → Each P ps → Each P qs → Each P (ps ++ qs)
Each-append P [] qs h k = k
Each-append P (p ∷ ps) qs (h, hs) k = (h, Each-append P ps qs hs k)

Each-distinct : (P : ℕ → Type 0) (met ps : List ℕ) → Each P ps → Each P (distinct met ps)
unfolding distinct
Each-distinct P met [] h = tt
Each-distinct P met (p ∷ ps) (h, hs) = elim (Bool-cases (contains p met)) [
  | inl e ↦ rw e (Each-distinct P met ps hs)
  | inr e ↦ rw e (h, Each-distinct P (p ∷ met) ps hs)
]

div_mono : (k a b : ℕ) → a ≤ b → a / k ≤ b / k
div_mono zero a b h = omega arith
div_mono (suc k) a b h =
    let le = div-mul-le_self a (suc k) in
    (le-div_iff_mul-le {k = suc k} (omega arith)).1 (omega (arith, le))

-- A part of the file's bytes.
Each-range :
    (plen : ℕ) (f : FileSlot) (start end : ℕ)
    → f.offset ≤ start
    → end ≤ f.offset + f.size - 1
    → Each (Covers plen f) (pieces_for_range start end plen)
unfolding pieces_for_range
Each-range plen f start end l u =
    Each-span (Covers plen f) (start / plen) (suc (end / plen) - start / plen) (λ p a b. (
      omega (arith, a, div_mono plen f.offset start l),
      omega (arith, a, b, div_mono plen end (f.offset + f.size - 1) u),
    ))

Each-if :
    (P : ℕ → Type 0) (b : Bool) (ps : List ℕ)
    → (b ≡ false → Each P ps)
    → Each P (if b then [] else ps)
Each-if P true ps h = tt
Each-if P false ps h = h refl

head_pieces-Covers :
    (plen fraction max_bytes : ℕ) (f : FileSlot)
    → Each (Covers plen f) (head_pieces f.offset f.size plen fraction max_bytes)
unfolding head_pieces head_bytes
head_pieces-Covers plen fraction max_bytes f =
    Each-if (Covers plen f) (plen == 0 || (f.size == 0 || ltb 1000 fraction)) _ λ a.
      let n = head_bytes f.size fraction max_bytes in
      Each-if (Covers plen f) (n == 0) (pieces_for_range f.offset (f.offset + n - 1) plen)
        λ b. Each-range plen f f.offset (f.offset + n - 1) (omega arith) (omega arith)

tail_pieces-Covers :
    (plen : ℕ) (f : FileSlot) → Each (Covers plen f) (tail_pieces f.offset f.size plen)
unfolding tail_pieces
tail_pieces-Covers plen f = Each-if (Covers plen f) (plen == 0 || f.size == 0) _ λ a.
    Each-range plen f (f.offset + f.size - min tail_bytes f.size) (f.offset + f.size - 1)
      (omega arith) (omega arith)

unfoldable pub CoversNext : ℕ → Option FileSlot → ℕ → Type 0
CoversNext plen none p = ⊥
CoversNext plen (some f) p = Covers plen f p

pub next_pieces-Covers :
    (o : Settings) (plen : ℕ) (next : Option FileSlot)
    → Each (CoversNext plen next) (next_pieces o plen next)
unfolding next_pieces CoversNext
next_pieces-Covers o plen none = tt
next_pieces-Covers o plen (some f) = Each-distinct (Covers plen f) [] _ (
    Each-append (Covers plen f) _ _ (head_pieces-Covers plen o.fraction o.max_bytes f)
      (tail_pieces-Covers plen f))

all_there-span :
    (have : ℕ → Bool) (a n : ℕ)
    → all_there have (span a n) ≡ true
    → (p : ℕ) → a ≤ p
    → p < a + n
    → have p ≡ true
unfolding all_there span
all_there-span have a zero e p l u = absurd (omega arith)
all_there-span have a (suc n) e p l u = elim (Bool-cases (a == p)) [
  | inl q ↦
      let here : have a ≡ true = ground (arith, e) in
      let same : a ≡ p = ground (arith, q) in rw (sym same) here
  | inr q ↦ all_there-span have (suc a) n (ground (arith, e)) p (ground (arith, q)) (omega arith)
]

-- A file that is complete has its pieces.
pub file_complete-have :
    (have : ℕ → Bool) (plen : ℕ) (f : FileSlot)
    → file_complete have plen (some f) ≡ true
    → (p : ℕ) → Covers plen f p
    → have p ≡ true
unfolding file_complete pieces_for_range
file_complete-have have plen f e p (l, u) = elim (Bool-cases (f.size == 0)) [
  | inl q ↦ absurd (let e' = rw q at e in ground (arith, e'))
  | inr q ↦
      all_there-span have (f.offset / plen) (suc ((f.offset + f.size - 1) / plen) - f.offset / plen)
        (rw q at e) p l (omega (arith, l, u))
]
