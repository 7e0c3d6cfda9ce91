-- ===== src/Playback/Pruning.antt =====
-- What `_prune` keeps and what it drops.
use stremio_libtorrent_serve.Base.{
  ℕ, ◌≡◌, refl, sym, ap, ◌∙◌, inl, inr, not, none≢some, List, [], ◌∷◌, Option, none, some, String,
  string_key, str_discrete, Dict, lookup, erase, IsDict, keep, arith, Bool-cases, if_pos, if_neg,
}
use stremio_libtorrent_serve.Playback.Sessions.{
  Session, Registry, is_stale, stale_ids, drop_found, drop_all, prune,
}

-- The loop's body, on the sessions.
abbrev erase_all : List String → Dict String Session → Dict String Session
erase_all [] d = d
erase_all (sid ∷ sids) d = erase_all sids (erase sid d)

erase-none : (sid : String) (d : Dict String Session) → lookup sid d ≡ none → erase sid d ≡ d
unfolding lookup erase
erase-none sid [] h = refl
erase-none sid ((k, s) ∷ d) h = ground (arith, erase-none sid d, h)

drop_found-sessions :
    (sid : String) (o : Option Session) (r : Registry)
    → lookup sid r.sessions ≡ o
    → (drop_found sid o r).sessions ≡ erase sid r.sessions
unfolding drop_found
drop_found-sessions sid none r h = sym (erase-none sid r.sessions h)
drop_found-sessions sid (some s) r h = refl

drop_all-sessions :
    (sids : List String) (r : Registry) → (drop_all sids r).sessions ≡ erase_all sids r.sessions
unfolding drop_all
drop_all-sessions [] r = refl
drop_all-sessions (sid ∷ sids) r =
    drop_all-sessions sids (drop_found sid (lookup sid r.sessions) r)
    ∙ ap (erase_all sids) (drop_found-sessions sid (lookup sid r.sessions) r refl)

abbrev pub Unnamed : String → List String → Type 0
Unnamed k [] = Unit {0}
Unnamed k (sid ∷ sids) = (¬ (k ≡ sid)) × Unnamed k sids

erase_all_past :
    (sids : List String) (k : String) (s : Session) (d : Dict String Session)
    → Unnamed k sids
    → erase_all sids ((k, s) ∷ d) ≡ (k, s) ∷ erase_all sids d
unfolding erase
erase_all_past [] k s d h = refl
erase_all_past (sid ∷ sids) k s d h =
    rw (if_neg (str_discrete sid k) (λ e. h.0 (sym e))) (erase_all_past sids k s (erase sid d) h.1)

pub stale_ids-Unnamed :
    (retention now : ℕ) (k : String) (d : Dict String Session)
    → lookup k d ≡ none
    → Unnamed k (stale_ids retention now d)
unfolding stale_ids lookup
stale_ids-Unnamed retention now k [] h = tt
stale_ids-Unnamed retention now k ((q, s) ∷ d) h = elim (str_discrete k q) [
  | yes p ↦ absurd (none≢some (sym h ∙ if_pos (str_discrete k q) p (some s) (lookup k d)))
  | no p ↦
      let h' : lookup k d ≡ none = sym (if_neg (str_discrete k q) p (some s) (lookup k d)) ∙ h in
      let rest = stale_ids-Unnamed retention now k d h' in
      elim (Bool-cases (is_stale retention now s)) [ inl e ↦ rw e (p, rest) | inr e ↦ rw e rest ]
]

erase_all-stale :
    (retention now : ℕ) (d : Dict String Session)
    → IsDict d
    → erase_all (stale_ids retention now d) d ≡ keep (λ p. not (is_stale retention now p.1)) d
unfolding stale_ids keep erase
erase_all-stale retention now [] h = refl
erase_all-stale retention now ((k, s) ∷ d) h = elim (Bool-cases (is_stale retention now s)) [
  | inl e ↦ rw e (
      ap (erase_all (stale_ids retention now d))
        (if_pos (str_discrete k k) refl (erase k d) ((k, s) ∷ erase k d) ∙ erase-none k d h.0)
      ∙ erase_all-stale retention now d h.1)
  | inr e ↦ rw e (
      erase_all_past (stale_ids retention now d) k s d (stale_ids-Unnamed retention now k d h.0)
      ∙ ap (◌∷◌ (k, s)) (erase_all-stale retention now d h.1))
]

-- Pruning, which drops sessions one by one with their jobs, leaves exactly the sessions that are not
-- stale, in their order.
pub prune-sessions :
    (retention now : ℕ) (r : Registry)
    → IsDict r.sessions
    → (prune retention now r).sessions ≡ keep (λ p. not (is_stale retention now p.1)) r.sessions
unfolding prune
prune-sessions retention now r h =
    drop_all-sessions (stale_ids retention now r.sessions) r
    ∙ erase_all-stale retention now r.sessions h
