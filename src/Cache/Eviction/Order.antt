-- ===== src/Cache/Eviction/Order.antt =====
-- The sort by modification time: a permutation, in order.
use mathlib.Core.List.Perm
use mathlib.Core.List.{Perm}
use stremio_libtorrent_serve.Base.{ℕ, ◌≤◌, List, [], ◌∷◌, arith, leb, Bool-cases, inl, inr}
use stremio_libtorrent_serve.Cache.Eviction.{Item, place, sort_by_mtime}

-- No entry of the list is older than the time `t`.
abbrev pub From : ℕ → List Item → Type 0
From t [] = Unit {0}
From t (i ∷ items) = (t ≤ i.mtime) × From t items

abbrev pub Sorted : List Item → Type 0
Sorted [] = Unit {0}
Sorted (i ∷ items) = From i.mtime items × Sorted items

From-mono : (s t : ℕ) (items : List Item) → s ≤ t → From t items → From s items
From-mono s t [] h f = tt
From-mono s t (i ∷ items) h f = (omega arith, From-mono s t items h f.1)

place-From :
    (t : ℕ) (i : Item) (items : List Item) → t ≤ i.mtime → From t items → From t (place i items)
unfolding place
place-From t i [] h f = (h, tt)
place-From t i (j ∷ items) h f = ground (arith, place-From t i items h f.1)

place-Sorted : (i : Item) (items : List Item) → Sorted items → Sorted (place i items)
unfolding place
place-Sorted i [] s = (tt, tt)
place-Sorted i (j ∷ items) s =
    ground
      (arith, place-Sorted i items s.1, place-From j.mtime i items, From-mono i.mtime j.mtime items)

pub sort-Sorted : (items : List Item) → Sorted (sort_by_mtime items)
unfolding sort_by_mtime
sort-Sorted [] = tt
sort-Sorted (i ∷ items) = place-Sorted i (sort_by_mtime items) (sort-Sorted items)

place-perm : (i : Item) (items : List Item) → Perm (place i items) (i ∷ items)
unfolding place
place-perm i [] = Perm.refl _
place-perm i (j ∷ items) = elim (Bool-cases (leb i.mtime j.mtime)) [
  | inl e ↦ rw e (Perm.refl _)
  | inr e ↦ rw e (Perm.trans (Perm.cons j (place-perm i items)) (Perm.swap i j items))
]

pub sort-perm : (items : List Item) → Perm (sort_by_mtime items) items
unfolding sort_by_mtime
sort-perm [] = Perm.refl _
sort-perm (i ∷ items) =
    Perm.trans (place-perm i (sort_by_mtime items)) (Perm.cons i (sort-perm items))
