-- ===== src/Base/Dicts.antt =====
-- Python dictionaries as association lists in insertion order.
use mathlib.Core.Path.{◌≡◌, refl, sym, subst, ◌∙◌}
use mathlib.Core.Logic.{ite, if_pos, if_neg, inl, inr}
use mathlib.Core.Bool.{Bool}
use mathlib.Core.List.{List, [], ◌∷◌}
use mathlib.Core.Option.{Option, none, some}
use native.Mathlib.Omega.{arith}
use stremio_libtorrent_serve.Base.Tests.{if◌then◌else◌, Bool-cases}
use stremio_libtorrent_serve.Base.Keys.{Key}
use stremio_libtorrent_serve.Base.Lists.{keep}

abbrev pub Dict {ℓ} : Type ℓ → Type ℓ → Type ℓ
Dict K V = List (K × V)

-- What is there and passes the test.
unfoldable pub passing {ℓ} : {V : Type ℓ} → (V → Bool) → Option V → Option V
passing f none = none
passing f (some v) = if f v then some v else none

module _ {ℓ} {K V : Type ℓ} ⦃key : Key K⦄ where
  -- `d.get(q)`
  unfoldable pub lookup : K → Dict K V → Option V
  lookup q [] = none
  lookup q ((k, v) ∷ d) = ite (key.same q k) (some v) (lookup q d)

  -- `d[k] = v`: in place if the key is there, else at the end
  unfoldable pub insert : K → V → Dict K V → Dict K V
  insert k v [] = (k, v) ∷ []
  insert k v ((j, w) ∷ d) = ite (key.same k j) ((k, v) ∷ d) ((j, w) ∷ insert k v d)

  -- `d.pop(k, None)`, the dictionary that is left
  unfoldable pub erase : K → Dict K V → Dict K V
  erase k [] = []
  erase k ((j, w) ∷ d) = let rest = erase k d in ite (key.same k j) rest ((j, w) ∷ rest)

  pub lookup-insert :
      (k q : K) (v : V) (d : Dict K V)
      → lookup q (insert k v d) ≡ ite (key.same q k) (some v) (lookup q d)
  unfolding lookup insert
  lookup-insert k q v [] = refl
  lookup-insert k q v ((j, w) ∷ d) = ground (arith, lookup-insert k q v d)

  pub lookup-erase :
      (k q : K) (d : Dict K V) → lookup q (erase k d) ≡ ite (key.same q k) none (lookup q d)
  unfolding lookup erase
  lookup-erase k q [] = ground arith
  lookup-erase k q ((j, w) ∷ d) = ground (arith, lookup-erase k q d)

  -- No key twice, as in every Python dictionary.
  abbrev pub IsDict : Dict K V → Type ℓ
  IsDict [] = Unit
  IsDict ((k, v) ∷ d) = (lookup k d ≡ none) × IsDict d

  pub insert-IsDict : (k : K) (v : V) (d : Dict K V) → IsDict d → IsDict (insert k v d)
  unfolding insert lookup
  insert-IsDict k v [] h = (refl, tt)
  insert-IsDict k v ((j, w) ∷ d) h = ground (arith, insert-IsDict k v d h.1, lookup-insert k j v d)

  pub erase-IsDict : (k : K) (d : Dict K V) → IsDict d → IsDict (erase k d)
  unfolding erase
  erase-IsDict k [] h = tt
  erase-IsDict k ((j, w) ∷ d) h = ground (arith, erase-IsDict k d h.1, lookup-erase k j d)

  pub lookup-insert_same : (k : K) (v : V) (d : Dict K V) → lookup k (insert k v d) ≡ some v
  lookup-insert_same k v d =
      lookup-insert k k v d ∙ if_pos (key.same k k) refl (some v) (lookup k d)

  pub lookup-insert_other :
      (k q : K) (v : V) (d : Dict K V) → ¬ (q ≡ k) → lookup q (insert k v d) ≡ lookup q d
  lookup-insert_other k q v d h =
      lookup-insert k q v d ∙ if_neg (key.same q k) h (some v) (lookup q d)

  pub lookup-erase_same : (k : K) (d : Dict K V) → lookup k (erase k d) ≡ none
  lookup-erase_same k d = lookup-erase k k d ∙ if_pos (key.same k k) refl none (lookup k d)

  pub lookup-erase_other : (k q : K) (d : Dict K V) → ¬ (q ≡ k) → lookup q (erase k d) ≡ lookup q d
  lookup-erase_other k q d h = lookup-erase k q d ∙ if_neg (key.same q k) h none (lookup q d)

  pub lookup-keep-none :
      (f : V → Bool) (q : K) (d : Dict K V)
      → lookup q d ≡ none
      → lookup q (keep (λ p. f p.1) d) ≡ none
  unfolding lookup keep
  lookup-keep-none f q [] h = refl
  lookup-keep-none f q ((k, v) ∷ d) h = ground (arith, h, lookup-keep-none f q d)

  pub lookup-keep :
      (f : V → Bool) (q : K) (d : Dict K V)
      → IsDict d
      → lookup q (keep (λ p. f p.1) d) ≡ passing f (lookup q d)
  unfolding lookup keep passing
  lookup-keep f q [] h = refl
  lookup-keep f q ((k, v) ∷ d) h = elim (key.same q k) [
    | yes p ↦
        let absent = lookup-keep-none f q d (subst (λ x. lookup x d ≡ none) (sym p) h.0) in
        rw (if_pos (key.same q k) p (some v) (lookup q d)) (elim (Bool-cases (f v)) [
          | inl e ↦ ground (arith, e, p)
          | inr e ↦ ground (arith, e, absent)
        ])
    | no p ↦ rw (if_neg (key.same q k) p (some v) (lookup q d)) (elim (Bool-cases (f v)) [
      | inl e ↦ ground (arith, e, p, lookup-keep f q d h.1)
      | inr e ↦ ground (arith, e, lookup-keep f q d h.1)
    ])
  ]

  pub keep-IsDict : (f : V → Bool) (d : Dict K V) → IsDict d → IsDict (keep (λ p. f p.1) d)
  unfolding keep
  keep-IsDict f [] h = tt
  keep-IsDict f ((k, v) ∷ d) h = elim (Bool-cases (f v)) [
    | inl e ↦ rw e (lookup-keep-none f k d h.0, keep-IsDict f d h.1)
    | inr e ↦ rw e (keep-IsDict f d h.1)
  ]
