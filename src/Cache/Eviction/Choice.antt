-- ===== src/Cache/Eviction/Choice.antt =====
-- What `select_evictions` chooses.
use mathlib.Core.List.{Perm}
use stremio_libtorrent_serve.Base.{
  ℕ, ◌+◌, ◌-◌, ◌≤◌, ◌<◌, ◌≡◌, refl, ap, ◌⊎◌, inl, inr, subst, sym, Bool, true, false, not, List, [],
  ◌∷◌, ◌++◌, String, string_key, contains, keep, arith, leb, Bool-cases,
}
use stremio_libtorrent_serve.Cache.Eviction.{
  Item, total_size, place, sort_by_mtime, take_until, candidates, select_evictions,
}
use stremio_libtorrent_serve.Cache.Eviction.Order.{From, Sorted, sort-Sorted, sort-perm}

abbrev pub All {ℓ} : (Item → Type ℓ) → List Item → Type ℓ
All P [] = Unit
All P (i ∷ items) = P i × All P items

-- When each entry was chosen, what the ones before it free did not suffice.
abbrev pub Needed : ℕ → ℕ → ℕ → List Item → Type 0
Needed total target freed [] = Unit {0}
Needed total target freed (i ∷ out) =
    (target + freed < total) × Needed total target (freed + i.size) out

-- Every entry of the first list is at least as old as every entry of the second.
abbrev pub Older : List Item → List Item → Type 0
Older out rest = All (λ i. From i.mtime rest) out

pub record Split (total target freed : ℕ) (items out : List Item) : Type 0 where
  pub rest : List Item
  pub whole : out ++ rest ≡ items
  pub enough : (rest ≡ []) ⊎ (total ≤ target + freed + total_size out)
  pub needed : Needed total target freed out

take_until-Split :
    (total target : ℕ) (items : List Item) (freed : ℕ)
    → Split total target freed items (take_until total target items freed)
unfolding take_until total_size
take_until-Split total target [] freed = record {
  rest = [];
  whole = refl;
  enough = inl refl;
  needed = tt;
}
take_until-Split total target (i ∷ items) freed = elim (Bool-cases (leb (total - freed) target)) [
  | inl e ↦
      rw e (record { rest = i ∷ items; whole = refl; enough = inr (ground arith); needed = tt })
  | inr e ↦
      let s = take_until-Split total target items (freed + i.size) in
      rw e (record {
        rest = s.rest;
        whole = ap (◌∷◌ i) s.whole;
        enough = ground (arith, s.enough);
        needed = (ground arith, s.needed);
      })
]

From-append : (t : ℕ) (out rest : List Item) → From t (out ++ rest) → From t rest
From-append t [] rest f = f
From-append t (i ∷ out) rest f = From-append t out rest f.1

Sorted-Older : (out rest : List Item) → Sorted (out ++ rest) → Older out rest
Sorted-Older [] rest s = tt
Sorted-Older (i ∷ out) rest s = (From-append i.mtime out rest s.0, Sorted-Older out rest s.1)

pub record Chosen (budget target : ℕ) (in_use : List String) (items out : List Item) : Type 0 where
  pub rest : List Item
  pub parts : Perm (out ++ rest) (keep (λ i. not (contains i.name in_use)) items)
  pub older : Older out rest
  pub enough : (rest ≡ []) ⊎ (total_size items ≤ target + total_size out)
  pub needed : Needed (total_size items) target 0 out

-- Over budget, the entries not in use split into those chosen and the rest: none of the rest is
-- older than a chosen one, the chosen ones bring the total down to the target unless nothing is
-- left to choose, and none was chosen after that was reached.
pub select_evictions-Chosen :
    (budget target : ℕ) (in_use : List String) (items : List Item)
    → budget < total_size items
    → Chosen budget target in_use items (select_evictions budget target in_use items)
unfolding select_evictions
select_evictions-Chosen budget target in_use items over =
    let total = total_size items in
    let cs = candidates in_use items in
    let s = take_until-Split total target cs 0 in
    let e : leb total budget ≡ false = ground arith in
    rw e (record {
      rest = s.rest;
      parts =
          subst (λ l. Perm l (keep (λ i. not (contains i.name in_use)) items)) (sym s.whole)
            (sort-perm _);
      older = Sorted-Older _ s.rest (subst Sorted (sym s.whole) (sort-Sorted _));
      enough = ground (arith, s.enough);
      needed = s.needed;
    })

pub All-keep :
    (P : Item → Type 0) (p : Item → Bool) (items : List Item)
    → ((i : Item) → p i ≡ true → P i)
    → All P (keep p items)
unfolding keep
All-keep P p [] h = tt
All-keep P p (i ∷ items) h = elim (Bool-cases (p i)) [
  | inl e ↦ rw e (h i e, All-keep P p items h)
  | inr e ↦ rw e (All-keep P p items h)
]

All-kept :
    (P : Item → Type 0) (p : Item → Bool) (items : List Item) → All P items → All P (keep p items)
unfolding keep
All-kept P p [] a = tt
All-kept P p (i ∷ items) a = elim (Bool-cases (p i)) [
  | inl e ↦ rw e (a.0, All-kept P p items a.1)
  | inr e ↦ rw e (All-kept P p items a.1)
]

All-place :
    (P : Item → Type 0) (i : Item) (items : List Item) → P i → All P items → All P (place i items)
unfolding place
All-place P i [] h a = (h, tt)
All-place P i (j ∷ items) h a = elim (Bool-cases (leb i.mtime j.mtime)) [
  | inl e ↦ rw e (h, a)
  | inr e ↦ rw e (a.0, All-place P i items h a.1)
]

All-sort : (P : Item → Type 0) (items : List Item) → All P items → All P (sort_by_mtime items)
unfolding sort_by_mtime
All-sort P [] a = tt
All-sort P (i ∷ items) a = All-place P i (sort_by_mtime items) a.0 (All-sort P items a.1)

All-take :
    (P : Item → Type 0) (total target : ℕ) (items : List Item) (freed : ℕ)
    → All P items
    → All P (take_until total target items freed)
unfolding take_until
All-take P total target [] freed a = tt
All-take P total target (i ∷ items) freed a = elim (Bool-cases (leb (total - freed) target)) [
  | inl e ↦ rw e tt
  | inr e ↦ rw e (a.0, All-take P total target items (freed + i.size) a.1)
]

abbrev pub Unused : List String → Item → Type 0
Unused in_use i = contains i.name in_use ≡ false

-- No entry in use is chosen.
pub select_evictions-Unused :
    (budget target : ℕ) (in_use : List String) (items : List Item)
    → All (Unused in_use) (select_evictions budget target in_use items)
unfolding select_evictions
select_evictions-Unused budget target in_use items =
    elim (Bool-cases (leb (total_size items) budget)) [
      | inl e ↦ rw e tt
      | inr e ↦ rw e (
          All-take (Unused in_use) _ target _ 0 (
            All-sort (Unused in_use) _ (
              All-keep (Unused in_use) (λ i. not (contains i.name in_use)) items
                (λ i h. ground (arith, h)))))
    ]

-- A property of all entries holds of those chosen.
pub select_evictions-All :
    (P : Item → Type 0) (budget target : ℕ) (in_use : List String) (items : List Item)
    → All P items
    → All P (select_evictions budget target in_use items)
unfolding select_evictions
select_evictions-All P budget target in_use items a =
    elim (Bool-cases (leb (total_size items) budget)) [
      | inl e ↦ rw e tt
      | inr e ↦ rw e (
          All-take P _ target _ 0
            (All-sort P _ (All-kept P (λ i. not (contains i.name in_use)) items a)))
    ]

pub All-both :
    (P Q R : Item → Type 0) (items : List Item)
    → ((i : Item) → P i → Q i → R i)
    → All P items
    → All Q items
    → All R items
All-both P Q R [] f a b = tt
All-both P Q R (i ∷ items) f a b = (f i a.0 b.0, All-both P Q R items f a.1 b.1)

pub All-map :
    (P Q : Item → Type 0) (items : List Item) → ((i : Item) → P i → Q i) → All P items → All Q items
All-map P Q [] f a = tt
All-map P Q (i ∷ items) f a = (f i a.0, All-map P Q items f a.1)
