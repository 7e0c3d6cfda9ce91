-- ===== src/Torrent/Policy/Seeding.antt =====
-- When the seed policy stops a torrent, against the history of its rounds.
use stremio_libtorrent_serve.Base.{
  ℕ, ◌-◌, ◌*◌, ◌≤◌, ◌<◌, ◌≡◌, refl, ◌∙◌, ◌⊎◌, inl, inr, Bool, true, false, ◌||◌, List, [], ◌∷◌,
  Option, none, some, arith, Bool-cases, Option-cases,
}
use stremio_libtorrent_serve.Torrent.Policy.{
  SeedRules, past_completion, should_stop_seeding, Seed, completed, enforce,
}

-- A round of the policy: its time, and whether the torrent was finished.
abbrev pub Round : Type 0
Round = ℕ × Bool

-- The torrent after the rounds, the latest first.
unfoldable pub after : SeedRules → Seed → List Round → Seed
after rules s [] = s
after rules s ((now, finished) ∷ rounds) = enforce rules now finished (after rules s rounds)

-- The time since which the torrent was finished in every round.
abbrev pub since : List Round → Option ℕ
since [] = none
since ((now, false) ∷ rounds) = none
since ((now, true) ∷ rounds) = elim (since rounds) [ none ↦ some now | some t ↦ some t ]

abbrev pub added : Bool → Seed
added pinned = record { pinned = pinned; completed_at = none; paused = false }

after-completed_at :
    (rules : SeedRules) (pinned : Bool) (rounds : List Round)
    → (after rules (added pinned) rounds).completed_at ≡ since rounds
unfolding after enforce completed
after-completed_at rules pinned [] = refl
after-completed_at rules pinned ((now, false) ∷ rounds) = refl
after-completed_at rules pinned ((now, true) ∷ rounds) =
    rw (after-completed_at rules pinned rounds)
      (elim (Option-cases (since rounds)) [ inl e ↦ rw e refl | inr (t, e) ↦ rw e refl ])

after-pinned :
    (rules : SeedRules) (s : Seed) (rounds : List Round) → (after rules s rounds).pinned ≡ s.pinned
unfolding after enforce
after-pinned rules s [] = refl
after-pinned rules s ((now, finished) ∷ rounds) = after-pinned rules s rounds

-- Some round in which the torrent was finished, and had been so without a break for long enough.
abbrev pub Served : SeedRules → List Round → Type 0
Served rules [] = ⊥
Served rules ((now, finished) ∷ rounds) =
    ((finished ≡ true)
      × (t : ℕ) × (since ((now, finished) ∷ rounds) ≡ some t)
      × ((rules.seed_on_complete ≡ false)
          ⊎ ((0 < rules.max_seed_minutes) × (rules.max_seed_minutes * 60 ≤ now - t))))
    ⊎ Served rules rounds

stopped :
    (rules : SeedRules) (pinned : Bool) (now t : ℕ)
    → pinned ≡ false
    → (rules.seed_on_complete ≡ false)
      ⊎ ((0 < rules.max_seed_minutes) × (rules.max_seed_minutes * 60 ≤ now - t))
    → should_stop_seeding rules pinned true (some t) now ≡ true
unfolding should_stop_seeding past_completion
stopped rules pinned now t e (inl h) = rw (e, h) refl
stopped rules pinned now t e (inr h) = elim (Bool-cases rules.seed_on_complete) [
  | inl b ↦ ground (arith, e, b, h.0, h.1)
  | inr b ↦ rw (e, b) refl
]

or_true : (a b : Bool) → b ≡ true → a || b ≡ true
or_true a b h = ground (arith, h)

-- A torrent that is not pinned and has been finished in every round since the minutes allowed, or
-- longer, is stopped by the round.
pub after-stops :
    (rules : SeedRules) (now t : ℕ) (rounds : List Round)
    → since ((now, true) ∷ rounds) ≡ some t
    → (rules.seed_on_complete ≡ false)
      ⊎ ((0 < rules.max_seed_minutes) × (rules.max_seed_minutes * 60 ≤ now - t))
    → (after rules (added false) ((now, true) ∷ rounds)).paused ≡ true
unfolding after enforce
after-stops rules now t rounds e due =
    let s = after rules (added false) rounds in
    let at : completed now true s.completed_at ≡ some t =
      after-completed_at rules false ((now, true) ∷ rounds) ∙ e in
    let stop : should_stop_seeding rules s.pinned true (some t) now ≡ true =
      stopped rules s.pinned now t (after-pinned rules (added false) rounds) due in
    rw at (or_true s.paused _ stop)
