-- ===== src/Pins/Wanted/Lowered.antt =====
-- Registries whose keys are in lower case, written and read.
use stremio_libtorrent_serve.Base.{
  ℕ, ◌≡◌, refl, sym, ap, subst, ◌∙◌, List, [], ◌∷◌, Option, none, some, arith, codes_key,
  codes_discrete, lookup, insert, erase, IsDict, insert-IsDict, lookup-insert_same,
  lookup-insert_other, if_pos, if_neg,
}
use stremio_libtorrent_serve.Pins.Names.{Text, lower_code, lower, Want}
use stremio_libtorrent_serve.Pins.Wanted.{Selectors, load_all, load}

lower_code_twice : (c : ℕ) → lower_code (lower_code c) ≡ lower_code c
unfolding lower_code
lower_code_twice c = ground arith

pub lower_twice : (s : Text) → lower (lower s) ≡ lower s
unfolding lower
lower_twice [] = refl
lower_twice (c ∷ s) = rw (lower_code_twice c, lower_twice s)

abbrev pub KeysLower : Selectors → Type 0
KeysLower [] = Unit
KeysLower ((k, v) ∷ d) = (lower k ≡ k) × KeysLower d

pub insert-KeysLower :
    (k : Text) (v : List Want) (d : Selectors)
    → lower k ≡ k
    → KeysLower d
    → KeysLower (insert k v d)
unfolding insert
insert-KeysLower k v [] l h = (l, tt)
insert-KeysLower k v ((j, w) ∷ d) l h = elim (codes_discrete k j) [
  | yes p ↦ rw (if_pos (codes_discrete k j) p ((k, v) ∷ d) ((j, w) ∷ insert k v d)) (l, h.1)
  | no p ↦
      rw (if_neg (codes_discrete k j) p ((k, v) ∷ d) ((j, w) ∷ insert k v d))
        (h.0, insert-KeysLower k v d l h.1)
]

pub erase-KeysLower : (k : Text) (d : Selectors) → KeysLower d → KeysLower (erase k d)
unfolding erase
erase-KeysLower k [] h = tt
erase-KeysLower k ((j, w) ∷ d) h = elim (codes_discrete k j) [
  | yes p ↦
      rw (if_pos (codes_discrete k j) p (erase k d) ((j, w) ∷ erase k d)) (erase-KeysLower k d h.1)
  | no p ↦
      rw (if_neg (codes_discrete k j) p (erase k d) ((j, w) ∷ erase k d))
        (h.0, erase-KeysLower k d h.1)
]

-- A registry as it is kept: no key twice, every key in lower case.
pub record IsKept (d : Selectors) : Type 0 where
  pub dict : IsDict d
  pub lowered : KeysLower d

load_all-IsKept : (out d : Selectors) → IsKept out → IsKept (load_all out d)
unfolding load_all
load_all-IsKept out [] h = h
load_all-IsKept out ((ih, specs) ∷ d) h = load_all-IsKept (insert (lower ih) specs out) d (record {
  dict = insert-IsDict (lower ih) specs out h.dict;
  lowered = insert-KeysLower (lower ih) specs out (lower_twice ih) h.lowered;
})

pub load-IsKept : (file : Option Selectors) → IsKept (load file)
unfolding load
load-IsKept none = record { dict = tt; lowered = tt }
load-IsKept (some d) = load_all-IsKept [] d (record { dict = tt; lowered = tt })

abbrev or_lookup : Option (List Want) → Option (List Want) → Option (List Want)
or_lookup none o = o
or_lookup (some v) o = some v

lookup-load_all :
    (out d : Selectors) (q : Text)
    → IsKept d
    → lookup q (load_all out d) ≡ or_lookup (lookup q d) (lookup q out)
unfolding load_all lookup
lookup-load_all out [] q h = refl
lookup-load_all out ((k, v) ∷ d) q h =
    let rest : IsKept d = record { dict = h.dict.1; lowered = h.lowered.1 } in
    let set = insert (lower k) v out in
    lookup-load_all set d q rest ∙ elim (codes_discrete q k) [
      | yes p ↦
          let absent = subst (λ j. lookup j d ≡ none) (sym p) h.dict.0 in
          let key : q ≡ lower k = p ∙ sym h.lowered.0 in
          let here =
            subst (λ j. lookup j set ≡ some v) (sym key) (lookup-insert_same (lower k) v out) in
          ap (λ o. or_lookup o (lookup q set)) absent
          ∙ here
          ∙ ap (λ o. or_lookup o (lookup q out))
              (sym (if_pos (codes_discrete q k) p (some v) (lookup q d)))
      | no p ↦
          let other = lookup-insert_other (lower k) q v out (λ e. p (e ∙ h.lowered.0)) in
          ap (or_lookup (lookup q d)) other
          ∙ ap (λ o. or_lookup o (lookup q out))
              (sym (if_neg (codes_discrete q k) p (some v) (lookup q d)))
    ]

or_lookup-none : (o : Option (List Want)) → or_lookup o none ≡ o
or_lookup-none none = refl
or_lookup-none (some v) = refl

-- Such a registry is read as it is.
pub lookup-load : (d : Selectors) (q : Text) → IsKept d → lookup q (load (some d)) ≡ lookup q d
unfolding load lookup
lookup-load d q h = lookup-load_all [] d q h ∙ or_lookup-none (lookup q d)
