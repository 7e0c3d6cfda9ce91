-- ===== src/Library/RateLimit/Times.antt =====
-- The lists of times in the limiter's table: their order, and how many are in a window.
use stremio_libtorrent_serve.Base.{
  ℕ, ◌+◌, ◌≤◌, ◌≡◌, refl, sym, ap, ◌∙◌, inl, inr, Bool, false, List, [], ◌∷◌, ◌++◌, length, keep,
  none, some, none≢some, string_key, arith, Option-cases,
}
use stremio_libtorrent_serve.Library.RateLimit.{last, in_window, is_recent}

-- No time of the list is later than the last one of it.
abbrev pub Until : ℕ → List ℕ → Type 0
Until t [] = Unit {0}
Until t (u ∷ ts) = (u ≤ t) × Until t ts

-- The attempts of a key that the table has within the window.
abbrev pub counted : ℕ → ℕ → List ℕ → ℕ
counted window now ts = length (keep (in_window window now) ts)

pub counted-append :
    (window now : ℕ) (ts us : List ℕ)
    → counted window now (ts ++ us) ≡ counted window now ts + counted window now us
unfolding keep
counted-append window now [] us = omega arith
counted-append window now (t ∷ ts) us = ground (arith, counted-append window now ts us)

-- What left an earlier window is in no later one.
pub counted-keep :
    (window now later : ℕ) (ts : List ℕ)
    → now ≤ later
    → counted window later (keep (in_window window now) ts) ≡ counted window later ts
unfolding keep in_window
counted-keep window now later [] h = refl
counted-keep window now later (t ∷ ts) h = ground (arith, counted-keep window now later ts h)

-- No time of the list is earlier.
abbrev pub From : ℕ → List ℕ → Type 0
From t [] = Unit {0}
From t (u ∷ ts) = (t ≤ u) × From t ts

abbrev pub Ordered : List ℕ → Type 0
Ordered [] = Unit {0}
Ordered (t ∷ ts) = From t ts × Ordered ts

pub From-keep : (p : ℕ → Bool) (t : ℕ) (ts : List ℕ) → From t ts → From t (keep p ts)
unfolding keep
From-keep p t [] f = tt
From-keep p t (u ∷ ts) f = ground (arith, f.0, From-keep p t ts f.1)

pub Ordered-keep : (p : ℕ → Bool) (ts : List ℕ) → Ordered ts → Ordered (keep p ts)
unfolding keep
Ordered-keep p [] o = tt
Ordered-keep p (t ∷ ts) o = ground (arith, From-keep p t ts o.0, Ordered-keep p ts o.1)

pub Until-keep : (p : ℕ → Bool) (t : ℕ) (ts : List ℕ) → Until t ts → Until t (keep p ts)
unfolding keep
Until-keep p t [] u = tt
Until-keep p t (x ∷ ts) u = ground (arith, u.0, Until-keep p t ts u.1)

pub Until-mono : (s t : ℕ) (ts : List ℕ) → s ≤ t → Until s ts → Until t ts
Until-mono s t [] h u = tt
Until-mono s t (x ∷ ts) h u = (omega arith, Until-mono s t ts h u.1)

pub Until-append : (t : ℕ) (ts : List ℕ) → Until t ts → Until t (ts ++ (t ∷ []))
Until-append t [] u = (omega arith, tt)
Until-append t (x ∷ ts) u = (u.0, Until-append t ts u.1)

pub From-append : (s t : ℕ) (ts : List ℕ) → s ≤ t → From s ts → From s (ts ++ (t ∷ []))
From-append s t [] h f = (h, tt)
From-append s t (x ∷ ts) h f = (f.0, From-append s t ts h f.1)

pub Ordered-append : (t : ℕ) (ts : List ℕ) → Until t ts → Ordered ts → Ordered (ts ++ (t ∷ []))
Ordered-append t [] u o = (tt, tt)
Ordered-append t (x ∷ ts) u o = (From-append x t ts u.0 o.0, Ordered-append t ts u.1 o.1)

pub Ordered-last : (ts : List ℕ) (t : ℕ) → Ordered ts → last ts ≡ some t → Until t ts
unfolding last
Ordered-last [] t o e = tt
Ordered-last (x ∷ []) t o e = (ground (arith, e), tt)
Ordered-last (x ∷ y ∷ ts) t o e =
    let rest = Ordered-last (y ∷ ts) t o.1 e in (ground (arith, rest.0, o.0.0), rest)

pub counted_out :
    (window now t : ℕ) (ts : List ℕ)
    → Until t ts
    → in_window window now t ≡ false
    → counted window now ts ≡ 0
unfolding keep in_window
counted_out window now t [] u h = refl
counted_out window now t (x ∷ ts) u h = ground (arith, counted_out window now t ts u.1 h, u.0, h)

last_some : (t : ℕ) (ts : List ℕ) → ¬ (last (t ∷ ts) ≡ none)
unfolding last
last_some t [] e = none≢some (sym e)
last_some t (u ∷ ts) e = last_some u ts e

-- A list whose last time is out of the window has none in it, then or later.
pub counted-reaped :
    (window now later : ℕ) (ts : List ℕ)
    → now ≤ later
    → Ordered ts
    → is_recent window now (last ts) ≡ false
    → counted window later ts ≡ 0
unfolding is_recent keep in_window last
counted-reaped window now later [] h o e = refl
counted-reaped window now later (t ∷ ts) h o e = elim (Option-cases (last (t ∷ ts))) [
  | inl n ↦ absurd (last_some t ts n)
  | inr (u, n) ↦ counted_out window later u (t ∷ ts) (Ordered-last (t ∷ ts) u o n) (
      let e' : is_recent window now (some u) ≡ false = ap (is_recent window now) (sym n) ∙ e in
      ground (arith, e'))
]
