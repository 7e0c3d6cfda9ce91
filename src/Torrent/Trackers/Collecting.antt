-- ===== src/Torrent/Trackers/Collecting.antt =====
-- What the loops of trackers.py gather.
use stremio_libtorrent_serve.Base.{
  ◌≡◌, refl, sym, ◌∙◌, inl, inr, Bool, true, false, not, ◌&&◌, List, [], ◌∷◌, arith, codes_key,
  codes_discrete, contains, contains_head, if_neg, Bool-cases,
}
use stremio_libtorrent_serve.Torrent.Trackers.{Text, collect}

-- No text twice, and none of those seen.
abbrev pub Fresh : List Text → List Text → Type 0
Fresh seen [] = Unit
Fresh seen (t ∷ ts) = (contains t seen ≡ false) × Fresh (t ∷ seen) ts

pub collect-Fresh : (keep : Text → Bool) (seen ts : List Text) → Fresh seen (collect keep seen ts)
unfolding collect
collect-Fresh keep seen [] = tt
collect-Fresh keep seen (t ∷ ts) = elim (Bool-cases (keep t && not (contains t seen))) [
  | inl e ↦ rw e (ground arith, collect-Fresh keep (t ∷ seen) ts)
  | inr e ↦ rw e (collect-Fresh keep seen ts)
]

contains_other : (u t : Text) (ts : List Text) → ¬ (u ≡ t) → contains u (t ∷ ts) ≡ contains u ts
unfolding contains
contains_other u t ts h = if_neg (codes_discrete u t) h true (contains u ts)

and_false : (a : Bool) (b : Bool) → a && b ≡ false → (c : Bool) → a && (b && c) ≡ false
and_false a b h c = ground arith

-- A text is gathered exactly if it passes the test, was not seen before and stands in the list.
pub contains-collect :
    (keep : Text → Bool) (seen ts : List Text) (u : Text)
    → contains u (collect keep seen ts) ≡ keep u && (not (contains u seen) && contains u ts)
unfolding collect
contains-collect keep seen [] u = unfold contains in ground arith
contains-collect keep seen (t ∷ ts) u = elim (Bool-cases (keep t && not (contains t seen))) [
  | inl e ↦ rw e (elim (codes_discrete u t) [
    | yes p ↦
        rw p (ground (arith, e, contains_head t ts, contains_head t (collect keep (t ∷ seen) ts)))
    | no p ↦
        rw
          (
            contains_other u t (collect keep (t ∷ seen) ts) p,
            contains-collect keep (t ∷ seen) ts u,
            contains_other u t seen p,
            contains_other u t ts p,
          )
          refl
  ])
  | inr e ↦
      rw (e, contains-collect keep seen ts u)
        (elim (codes_discrete u t) [
          | yes p ↦ rw p (
              and_false (keep t) (not (contains t seen)) e (contains t ts)
              ∙ sym (and_false (keep t) (not (contains t seen)) e (contains t (t ∷ ts))))
          | no p ↦ rw (contains_other u t ts p) refl
        ])
]

-- Some of the texts, in their order.
pub data Subsequence : List Text → List Text → Type 0 where
  done : Subsequence [] []
  take : {t : Text} {ts us : List Text} → Subsequence ts us → Subsequence (t ∷ ts) (t ∷ us)
  skip : {t : Text} {ts us : List Text} → Subsequence ts us → Subsequence ts (t ∷ us)

pub collect-Subsequence :
    (keep : Text → Bool) (seen ts : List Text) → Subsequence (collect keep seen ts) ts
unfolding collect
collect-Subsequence keep seen [] = Subsequence.done
collect-Subsequence keep seen (t ∷ ts) = elim (Bool-cases (keep t && not (contains t seen))) [
  | inl e ↦ rw e (Subsequence.take (collect-Subsequence keep (t ∷ seen) ts))
  | inr e ↦ rw e (Subsequence.skip (collect-Subsequence keep seen ts))
]

-- Nothing is left out of a list that passes and is fresh.
abbrev pub Pass : (Text → Bool) → List Text → Type 0
Pass keep [] = Unit
Pass keep (t ∷ ts) = (keep t ≡ true) × Pass keep ts

pub collect-all :
    (keep : Text → Bool) (seen ts : List Text)
    → Pass keep ts
    → Fresh seen ts
    → collect keep seen ts ≡ ts
unfolding collect
collect-all keep seen [] p f = refl
collect-all keep seen (t ∷ ts) p f = rw (p.0, f.0, collect-all keep (t ∷ seen) ts p.1 f.1)

pub collect-Pass : (keep : Text → Bool) (seen ts : List Text) → Pass keep (collect keep seen ts)
unfolding collect
collect-Pass keep seen [] = tt
collect-Pass keep seen (t ∷ ts) = elim (Bool-cases (keep t && not (contains t seen))) [
  | inl e ↦ rw e (ground arith, collect-Pass keep (t ∷ seen) ts)
  | inr e ↦ rw e (collect-Pass keep seen ts)
]
