-- ===== src/Torrent/Prefetch/Keys.antt =====
-- The order of natural keys: lemmas on `less_key`.
use stremio_libtorrent_serve.Base.{
  ◌≡◌, refl, inl, inr, true, false, [], ◌∷◌, arith, Bool-cases, true≢false, sym,
}
use stremio_libtorrent_serve.Pins.Names.{Text, lower}
use stremio_libtorrent_serve.Pins.Choosing.{same_text}
use stremio_libtorrent_serve.Torrent.Prefetch.Order.{Split, last, run, less_text, less_key}

less_text_trans :
    (s t u : Text) → less_text t s ≡ false → less_text u t ≡ false → less_text u s ≡ false
unfolding less_text
less_text_trans [] t [] h k = refl
less_text_trans [] t (c ∷ u) h k = refl
less_text_trans (a ∷ s) [] [] h k = h
less_text_trans (a ∷ s) [] (c ∷ u) h k = ground (arith, h)
less_text_trans (a ∷ s) (b ∷ t) [] h k = ground (arith, k)
less_text_trans (a ∷ s) (b ∷ t) (c ∷ u) h k = ground (arith, h, k, less_text_trans s t u)

-- Between two texts that are the same there are only the same.
between :
    (s t u : Text)
    → less_text t s ≡ false
    → less_text u t ≡ false
    → same_text u s ≡ true
    → (same_text t s ≡ true) × (same_text u t ≡ true)
unfolding less_text same_text
between [] [] [] h k e = (refl, refl)
between [] (b ∷ t) [] h k e = absurd (true≢false k)
between [] t (c ∷ u) h k e = absurd (true≢false (sym e))
between (a ∷ s) t [] h k e = absurd (true≢false (sym e))
between (a ∷ s) [] (c ∷ u) h k e = absurd (true≢false h)
between (a ∷ s) (b ∷ t) (c ∷ u) h k e =
    let rest = between s t u in (ground (arith, h, k, e, rest), ground (arith, h, k, e, rest))

pub less_key_trans :
    (s t u : Split) → less_key t s ≡ false → less_key u t ≡ false → less_key u s ≡ false
unfolding less_key
less_key_trans (last s) (last t) (last u) h k = less_text_trans (lower s) (lower t) (lower u) h k
less_key_trans (last s) (last t) (run u e l) h k = ground (
  arith,
  h,
  k,
  less_text_trans (lower s) (lower t) (lower u),
  between (lower s) (lower t) (lower u),
)
less_key_trans (last s) (run t d k) (last u) h i = ground (
  arith,
  h,
  i,
  less_text_trans (lower s) (lower t) (lower u),
  between (lower s) (lower t) (lower u),
)
less_key_trans (last s) (run t d k) (run u e l) h i = ground (
  arith,
  h,
  i,
  less_text_trans (lower s) (lower t) (lower u),
  between (lower s) (lower t) (lower u),
)
less_key_trans (run s c j) (last t) (last u) h i = ground (
  arith,
  h,
  i,
  less_text_trans (lower s) (lower t) (lower u),
  between (lower s) (lower t) (lower u),
)
less_key_trans (run s c j) (last t) (run u e l) h i = ground (
  arith,
  h,
  i,
  less_text_trans (lower s) (lower t) (lower u),
  between (lower s) (lower t) (lower u),
)
less_key_trans (run s c j) (run t d k) (last u) h i = ground (
  arith,
  h,
  i,
  less_text_trans (lower s) (lower t) (lower u),
  between (lower s) (lower t) (lower u),
)
less_key_trans (run s c j) (run t d k) (run u e l) h i = ground (
  arith,
  h,
  i,
  less_text_trans (lower s) (lower t) (lower u),
  between (lower s) (lower t) (lower u),
  less_key_trans j k l,
)

less_text_asym : (s t : Text) → less_text s t ≡ true → less_text t s ≡ false
unfolding less_text
less_text_asym [] [] h = absurd (true≢false (sym h))
less_text_asym [] (b ∷ t) h = refl
less_text_asym (a ∷ s) [] h = absurd (true≢false (sym h))
less_text_asym (a ∷ s) (b ∷ t) h = ground (arith, h, less_text_asym s t)

same_text_sym :
    (s t : Text)
    → same_text s t ≡ true
    → (same_text t s ≡ true) × (less_text s t ≡ false) × (less_text t s ≡ false)
unfolding same_text less_text
same_text_sym [] [] h = (refl, refl, refl)
same_text_sym [] (b ∷ t) h = absurd (true≢false (sym h))
same_text_sym (a ∷ s) [] h = absurd (true≢false (sym h))
same_text_sym (a ∷ s) (b ∷ t) h =
    let rest = same_text_sym s t in
    (ground (arith, h, rest), ground (arith, h, rest), ground (arith, h, rest))

pub less_key_asym : (s t : Split) → less_key s t ≡ true → less_key t s ≡ false
unfolding less_key
less_key_asym (last s) (last t) h = less_text_asym (lower s) (lower t) h
less_key_asym (last s) (run t d k) h =
    ground (arith, h, less_text_asym (lower s) (lower t), same_text_sym (lower s) (lower t))
less_key_asym (run s c j) (last t) h =
    ground (arith, h, less_text_asym (lower s) (lower t), same_text_sym (lower t) (lower s))
less_key_asym (run s c j) (run t d k) h = ground (
  arith,
  h,
  less_text_asym (lower s) (lower t),
  same_text_sym (lower s) (lower t),
  same_text_sym (lower t) (lower s),
  less_key_asym j k,
)

pub less_key_irrefl : (s : Split) → less_key s s ≡ false
less_key_irrefl s = elim (Bool-cases (less_key s s)) [ inl e ↦ less_key_asym s s e | inr e ↦ e ]
