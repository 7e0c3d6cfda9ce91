-- ===== src/Torrent/Prefetch/Sorting.antt =====
-- The sort by natural keys.
use stremio_libtorrent_serve.Base.{
  ℕ, ◌≡◌, refl, sym, ◌⊎◌, inl, inr, false, List, [], ◌∷◌, Bool-cases,
}
use stremio_libtorrent_serve.Torrent.Prefetch.Order.{Split, less_key}
use stremio_libtorrent_serve.Torrent.Prefetch.Keys.{less_key_trans, less_key_asym}
use stremio_libtorrent_serve.Torrent.Prefetch.{place, sort}

-- No key of the list is less than this one.
abbrev pub Least : Split → List (ℕ × Split) → Type 0
Least m [] = Unit {0}
Least m ((i, k) ∷ rest) = (less_key k m ≡ false) × Least m rest

abbrev pub Sorted : List (ℕ × Split) → Type 0
Sorted [] = Unit {0}
Sorted ((i, k) ∷ rest) = Least k rest × Sorted rest

Least-later : (m k : Split) (l : List (ℕ × Split)) → less_key k m ≡ false → Least k l → Least m l
Least-later m k [] h least = tt
Least-later m k ((j, l) ∷ rest) h (e, least) =
    (less_key_trans m k l h e, Least-later m k rest h least)

place-Least :
    (m k : Split) (i : ℕ) (l : List (ℕ × Split))
    → less_key k m ≡ false
    → Least m l
    → Least m (place (i, k) l)
unfolding place
place-Least m k i [] h least = (h, tt)
place-Least m k i ((j, l) ∷ rest) h (e, least) = elim (Bool-cases (less_key l k)) [
  | inl t ↦ rw t (e, place-Least m k i rest h least)
  | inr f ↦ rw f (h, (e, least))
]

place-Sorted : (i : ℕ) (k : Split) (l : List (ℕ × Split)) → Sorted l → Sorted (place (i, k) l)
unfolding place
place-Sorted i k [] s = (tt, tt)
place-Sorted i k ((j, l) ∷ rest) (least, s) = elim (Bool-cases (less_key l k)) [
  | inl t ↦ rw t (place-Least l k i rest (less_key_asym l k t) least, place-Sorted i k rest s)
  | inr f ↦ rw f ((f, Least-later k l rest f least), (least, s))
]

pub sort-Sorted : (l : List (ℕ × Split)) → Sorted (sort l)
unfolding sort
sort-Sorted [] = tt
sort-Sorted ((i, k) ∷ l) = place-Sorted i k (sort l) (sort-Sorted l)

abbrev pub Member : ℕ → Split → List (ℕ × Split) → Type 0
Member i k [] = ⊥
Member i k ((j, l) ∷ rest) = ((i ≡ j) × (k ≡ l)) ⊎ Member i k rest

place-Member :
    (i j : ℕ) (k l : Split) (rest : List (ℕ × Split))
    → (Member i k (place (j, l) rest) → Member i k ((j, l) ∷ rest))
      × (Member i k ((j, l) ∷ rest) → Member i k (place (j, l) rest))
unfolding place
place-Member i j k l [] = (λ m. m, λ m. m)
place-Member i j k l ((a, b) ∷ rest) =
    let further = place-Member i j k l rest in
    elim (Bool-cases (less_key b l)) [
      | inr f ↦ rw f (λ m. m, λ m. m)
      | inl t ↦ rw t (
        λ m. elim m [
          | inl e ↦ inr (inl e)
          | inr n ↦ elim (further.0 n) [ inl e ↦ inl e | inr o ↦ inr (inr o) ]
        ],
        λ m. elim m [
          | inl e ↦ inr (further.1 (inl e))
          | inr n ↦ elim n [ inl e ↦ inl e | inr o ↦ inr (further.1 (inr o)) ]
        ],
      )
    ]

pub sort-Member :
    (i : ℕ) (k : Split) (l : List (ℕ × Split))
    → (Member i k (sort l) → Member i k l) × (Member i k l → Member i k (sort l))
unfolding sort
sort-Member i k [] = (λ m. m, λ m. m)
sort-Member i k ((j, l) ∷ rest) =
    let placed = place-Member i j k l (sort rest) in
    let further = sort-Member i k rest in
    (
      λ m. elim (placed.0 m) [ inl e ↦ inl e | inr n ↦ inr (further.0 n) ],
      λ m. elim m [ inl e ↦ placed.1 (inl e) | inr n ↦ placed.1 (inr (further.1 n)) ],
    )

-- No index twice.
abbrev pub Distinct : List (ℕ × Split) → Type 0
Distinct [] = Unit {0}
Distinct ((i, k) ∷ rest) = ((key : Split) → Member i key rest → ⊥) × Distinct rest

place-Distinct :
    (i : ℕ) (k : Split) (l : List (ℕ × Split))
    → ((key : Split) → Member i key l → ⊥)
    → Distinct l
    → Distinct (place (i, k) l)
unfolding place
place-Distinct i k [] fresh d = (λ key m. m, tt)
place-Distinct i k ((j, l) ∷ rest) fresh (other, d) = elim (Bool-cases (less_key l k)) [
  | inr f ↦ rw f (fresh, (other, d))
  | inl t ↦ rw t (
    λ key m. elim ((place-Member j i key k rest).0 m) [
      | inl e ↦ fresh l (inl (sym (e.0), refl))
      | inr n ↦ other key n
    ],
    place-Distinct i k rest (λ key m. fresh key (inr m)) d,
  )
]

pub sort-Distinct : (l : List (ℕ × Split)) → Distinct l → Distinct (sort l)
unfolding sort
sort-Distinct [] d = tt
sort-Distinct ((i, k) ∷ l) (fresh, d) =
    place-Distinct i k (sort l) (λ key m. fresh key ((sort-Member i key l).0 m)) (sort-Distinct l d)
