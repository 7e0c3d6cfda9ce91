-- ===== src/Cache/Resume/Sparing.antt =====
-- What the sweep of the .resume directory leaves in place.
use mathlib.Core.List.Perm
use mathlib.Core.List.{Perm, perm_middle}
use stremio_libtorrent_serve.Base.{
  length, lookup, str_discrete, ℕ, ◌+◌, ◌*◌, ◌<◌, ◌≡◌, refl, Bool, true, false, not, List, [], ◌∷◌,
  ◌++◌, String, string_key, Dict, contains, keep, ends_with, lower, arith, leb, Bool-cases, ◌⊎◌,
  inl, inr,
}
use stremio_libtorrent_serve.Cache.Resume.{
  Entry, Root, claimed_hashes, stem, resume_suffix, verdict, is_removed, surviving, sweep_enabled,
  count, sweep_resume, Swept, counts, prune_name_index,
}

-- The two ways in which the sweep removes a file.
abbrev pub Stale : ℕ → ℕ → List String → Entry → Type 0
Stale now max_age claims e =
    ((ends_with e.name ".tmp" ≡ true) × (e.mtime + 86400 < now))
    ⊎ ((ends_with e.name resume_suffix ≡ true)
        × (contains (lower (stem e.name resume_suffix)) claims ≡ false)
        × (e.mtime + max_age < now))

pub verdict-Stale :
    (now max_age : ℕ) (claims : List String) (e : Entry)
    → is_removed (verdict now max_age claims e) ≡ true
    → Stale now max_age claims e
unfolding verdict is_removed
verdict-Stale now max_age claims e h = ground arith

abbrev pub AllEntries : (Entry → Type 0) → List Entry → Type 0
AllEntries P [] = Unit {0}
AllEntries P (e ∷ entries) = P e × AllEntries P entries

keep-AllEntries :
    (P : Entry → Type 0) (p : Entry → Bool) (entries : List Entry)
    → ((e : Entry) → p e ≡ true → P e)
    → AllEntries P (keep p entries)
unfolding keep
keep-AllEntries P p [] f = tt
keep-AllEntries P p (e ∷ entries) f = elim (Bool-cases (p e)) [
  | inl h ↦ rw h (f e h, keep-AllEntries P p entries f)
  | inr h ↦ rw h (keep-AllEntries P p entries f)
]

keep-Perm :
    (p : Entry → Bool) (entries : List Entry)
    → Perm (keep p entries ++ keep (λ e. not (p e)) entries) entries
unfolding keep
keep-Perm p [] = Perm.refl _
keep-Perm p (e ∷ entries) = elim (Bool-cases (p e)) [
  | inl h ↦ rw h (Perm.cons e (keep-Perm p entries))
  | inr h ↦ rw h (Perm.trans (perm_middle (keep p entries) _) (Perm.cons e (keep-Perm p entries)))
]

counts-removed :
    (now max_age : ℕ) (claims : List String) (entries : List Entry)
    → (counts now max_age claims entries).removed + (counts now max_age claims entries).tmp
      ≡ length (keep (λ e. is_removed (verdict now max_age claims e)) entries)
unfolding counts count keep is_removed
counts-removed now max_age claims [] = refl
counts-removed now max_age claims (e ∷ entries) =
    ground (arith, counts-removed now max_age claims entries, verdict now max_age claims e)

-- The sweep as a whole: what it removes was stale, and counted.
pub record Retired (days now : ℕ) (root : Root) (out : Swept) : Type 0 where
  pub gone : List Entry
  pub parts : Perm (gone ++ out.root.entries) root.entries
  pub stale : AllEntries (Stale now (days * 86400) (claimed_hashes root)) gone
  pub counted : out.counts.removed + out.counts.tmp ≡ length gone

-- A sweep with a positive number of days splits the records into those removed and those left. One
-- that is removed is a temporary file older than a day, or the record of a hash that no name on
-- disk, pin or wanted file claims, and older than the days allowed; the report counts each.
pub sweep_resume-Retired :
    (days now : ℕ) (root : Root) → 0 < days → Retired days now root (sweep_resume days now root)
unfolding sweep_resume sweep_enabled surviving
sweep_resume-Retired days now root h =
    let e : leb days 0 ≡ false = ground arith in
    let claims = claimed_hashes root in
    let max_age = days * 86400 in
    let gone : List Entry = keep (λ e. is_removed (verdict now max_age claims e)) root.entries in
    rw e (record {
      gone = gone;
      parts = keep-Perm (λ e. is_removed (verdict now max_age claims e)) root.entries;
      stale =
          keep-AllEntries (Stale now max_age claims)
            (λ e. is_removed (verdict now max_age claims e)) root.entries
            (verdict-Stale now max_age claims);
      counted = counts-removed now max_age claims root.entries;
    })

lookup-keep :
    (n : String) (p : String × String → Bool) (index : Dict String String)
    → ((h : String) → p (n, h) ≡ true)
    → lookup n (keep p index) ≡ lookup n index
unfolding lookup keep
lookup-keep n p [] f = refl
lookup-keep n p ((m, h) ∷ index) f = elim (str_discrete n m) [
  | yes q ↦ ground (arith, q, f h, lookup-keep n p index f)
  | no q ↦ ground (arith, q, lookup-keep n p index f)
]

-- Whatever the days, the name index keeps its answer for every name that is on disk.
pub sweep_resume-index :
    (days now : ℕ) (root : Root) (n : String)
    → contains n root.on_disk ≡ true
    → lookup n (sweep_resume days now root).root.index ≡ lookup n root.index
unfolding sweep_resume sweep_enabled prune_name_index
sweep_resume-index days now root n h = elim (Bool-cases (leb days 0)) [
  | inl e ↦ rw e refl
  | inr e ↦ rw e (lookup-keep n _ root.index (λ x. ground (arith, h)))
]
