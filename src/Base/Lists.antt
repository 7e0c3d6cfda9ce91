-- ===== src/Base/Lists.antt =====
-- Lists measured by native numbers, filters by a Boolean test, and finite sets as lists.
use Prim.Native.Nat.{ℕ, suc, ◌+◌, ◌≤◌}
use mathlib.Core.Path.{◌≡◌, refl, sym, ap, ◌∙◌}
use mathlib.Core.Logic.{ite, if_pos, if_neg, inl, inr}
use mathlib.Core.Bool.{Bool, true, false, ◌||◌, true≢false}
use mathlib.Core.List.{List, [], ◌∷◌, ◌++◌}
use native.Mathlib.Omega.{arith}
use stremio_libtorrent_serve.Base.Tests.{if◌then◌else◌, Bool-cases}
use stremio_libtorrent_serve.Base.Keys.{Key}

module _ {ℓ} {A : Type ℓ} where
  abbrev pub length : List A → ℕ
  length [] = 0
  length (x ∷ xs) = suc (length xs)

  pub length-append : (xs ys : List A) → length (xs ++ ys) ≡ length xs + length ys
  length-append [] ys = omega arith
  length-append (x ∷ xs) ys = omega (arith, length-append xs ys)

  -- `[x for x in xs if p(x)]`
  unfoldable pub keep : (A → Bool) → List A → List A
  keep p [] = []
  keep p (x ∷ xs) = let rest = keep p xs in if p x then x ∷ rest else rest

  pub length-keep-le : (p : A → Bool) (xs : List A) → length (keep p xs) ≤ length xs
  unfolding keep
  length-keep-le p [] = omega arith
  length-keep-le p (x ∷ xs) = ground (arith, length-keep-le p xs)

module _ {ℓ} {A : Type ℓ} ⦃key : Key A⦄ where
  -- `a in xs`
  unfoldable pub contains : A → List A → Bool
  contains a [] = false
  contains a (x ∷ xs) = ite (key.same a x) true (contains a xs)

  -- `s.add(a)` on a set
  unfoldable pub add : A → List A → List A
  unfolding contains
  add a s = if contains a s then s else a ∷ s

  -- `s.discard(a)` on a set
  unfoldable pub discard : A → List A → List A
  discard a [] = []
  discard a (x ∷ s) = let rest = discard a s in ite (key.same a x) rest (x ∷ rest)

  pub contains-add :
      (a b : A) (s : List A) → contains b (add a s) ≡ ite (key.same b a) true (contains b s)
  unfolding add contains
  contains-add a b s = ground arith

  pub contains-discard :
      (a b : A) (s : List A) → contains b (discard a s) ≡ ite (key.same b a) false (contains b s)
  unfolding discard contains
  contains-discard a b [] = ground arith
  contains-discard a b (x ∷ s) = elim (key.same a x) [
    | yes p ↦ rw (if_pos _ p) (ground (arith, contains-discard a b s))
    | no p ↦ rw (if_neg _ p) (ground (arith, contains-discard a b s))
  ]

  pub contains-append :
      (a : A) (xs ys : List A) → contains a (xs ++ ys) ≡ contains a xs || contains a ys
  unfolding contains
  contains-append a [] ys = refl
  contains-append a (x ∷ xs) ys = elim (key.same a x) [
    | yes p ↦
        rw
          (
            if_pos (key.same a x) p true (contains a xs),
            if_pos (key.same a x) p true (contains a (xs ++ ys)),
          )
          refl
    | no p ↦
        rw
          (
            if_neg (key.same a x) p true (contains a xs),
            if_neg (key.same a x) p true (contains a (xs ++ ys)),
          )
          (contains-append a xs ys)
  ]

  -- What is not in a joined list is in neither part.
  pub contains-append_no :
      (a : A) (xs ys : List A)
      → contains a (xs ++ ys) ≡ false
      → (contains a xs ≡ false) × (contains a ys ≡ false)
  contains-append_no a xs ys h =
      let e : contains a xs || contains a ys ≡ false = sym (contains-append a xs ys) ∙ h in
      elim (Bool-cases (contains a xs)) [
        | inl x ↦ absurd (true≢false (sym (ap (λ b. b || contains a ys) x) ∙ e))
        | inr x ↦ (x, sym (ap (λ b. b || contains a ys) x) ∙ e)
      ]

  pub contains_head : (a : A) (xs : List A) → contains a (a ∷ xs) ≡ true
  unfolding contains
  contains_head a xs = if_pos (key.same a a) refl true (contains a xs)

  pub contains_tail : (a x : A) (xs : List A) → contains a xs ≡ true → contains a (x ∷ xs) ≡ true
  unfolding contains
  contains_tail a x xs h = ground (arith, h)
