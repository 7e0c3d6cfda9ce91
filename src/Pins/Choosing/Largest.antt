-- ===== src/Pins/Choosing/Largest.antt =====
-- Which of several files is taken.
use stremio_libtorrent_serve.Base.{
  ℕ, suc, ◌≤◌, ◌<◌, ◌≡◌, refl, sym, ap, subst, ◌⊎◌, inl, inr, Bool, true, false, List, [], ◌∷◌,
  some, arith, keep, ltb, ltb→lt, if◌then◌else◌, Bool-cases, some-injective,
}
use stremio_libtorrent_serve.Pins.Names.{Text}
use stremio_libtorrent_serve.Pins.Choosing.{Candidate, number_from, largest, largest_index}

-- The second is no larger, and if it is as large it does not come before.
abbrev pub Beats : Candidate → Candidate → Type 0
Beats c d = (d.size ≤ c.size) × (d.size ≡ c.size → c.index ≤ d.index)

abbrev pub BeatsAll : Candidate → List Candidate → Type 0
BeatsAll c [] = Unit
BeatsAll c (d ∷ ds) = Beats c d × BeatsAll c ds

-- Indices that grow, each above `i`.
abbrev pub Ascending : ℕ → List Candidate → Type 0
Ascending i [] = Unit
Ascending i (c ∷ cs) = (i ≤ c.index) × Ascending (suc c.index) cs

abbrev pub Member : Candidate → List Candidate → Type 0
Member c [] = ⊥
Member c (d ∷ ds) = (c ≡ d) ⊎ Member c ds

Ascending-weaker : (i j : ℕ) (cs : List Candidate) → j ≤ i → Ascending i cs → Ascending j cs
Ascending-weaker i j [] h a = tt
Ascending-weaker i j (c ∷ cs) h a = (omega arith, a.1)

pub Ascending-number_from : (i : ℕ) (files : List (Text × ℕ)) → Ascending i (number_from i files)
unfolding number_from
Ascending-number_from i [] = tt
Ascending-number_from i ((path, size) ∷ files) = (omega arith, Ascending-number_from (suc i) files)

pub Ascending-keep :
    (p : Candidate → Bool) (i : ℕ) (cs : List Candidate) → Ascending i cs → Ascending i (keep p cs)
unfolding keep
Ascending-keep p i [] a = tt
Ascending-keep p i (c ∷ cs) a = elim (Bool-cases (p c)) [
  | inl e ↦ rw e (a.0, Ascending-keep p (suc c.index) cs a.1)
  | inr e ↦ rw e (
      Ascending-weaker (suc c.index) i (keep p cs) (omega arith)
        (Ascending-keep p (suc c.index) cs a.1))
]

Beats-smaller : (l c d : Candidate) → Beats l c → d.size < c.size → Beats l d
Beats-smaller l c d b h = (omega arith, λ e. absurd (omega arith))

Beats-later : (l c d : Candidate) → Beats l c → d.size ≤ c.size → c.index < d.index → Beats l d
Beats-later l c d (le, first) h i = (omega arith, λ e. let f = first (omega arith) in omega arith)

largest_pick :
    (best c : Candidate) (cs : List Candidate) (b : Bool)
    → ltb best.size c.size ≡ b
    → largest (if b then c else best) cs ≡ largest best (c ∷ cs)
unfolding largest
largest_pick best c cs b e = ap (λ a. largest (if a then c else best) cs) (sym e)

-- What is taken is at least as good as the best so far and beats all others.
largest-Beats :
    (best : Candidate) (cs : List Candidate)
    → Ascending (suc best.index) cs
    → Beats (largest best cs) best × BeatsAll (largest best cs) cs
unfolding largest
largest-Beats best [] a = ((omega arith, λ e. omega arith), tt)
largest-Beats best (c ∷ cs) a = elim (Bool-cases (ltb best.size c.size)) [
  | inl e ↦
      let (b, all) = largest-Beats c cs a.1 in
      subst (λ l. Beats l best × BeatsAll l (c ∷ cs)) (largest_pick best c cs true e)
        (Beats-smaller (largest c cs) c best b (ltb→lt best.size c.size e), (b, all))
  | inr e ↦
      let (b, all) =
        largest-Beats best cs (Ascending-weaker (suc c.index) _ cs (omega arith) a.1) in
      subst (λ l. Beats l best × BeatsAll l (c ∷ cs)) (largest_pick best c cs false e)
        (b, (Beats-later (largest best cs) best c b (ground arith) a.0, all))
]

Member-skip :
    (l best c : Candidate) (cs : List Candidate) → Member l (best ∷ cs) → Member l (best ∷ c ∷ cs)
Member-skip l best c cs (inl p) = inl p
Member-skip l best c cs (inr q) = inr (inr q)

largest-Member : (best : Candidate) (cs : List Candidate) → Member (largest best cs) (best ∷ cs)
unfolding largest
largest-Member best [] = inl refl
largest-Member best (c ∷ cs) = elim (Bool-cases (ltb best.size c.size)) [
  | inl e ↦
      subst (λ l. Member l (best ∷ c ∷ cs)) (largest_pick best c cs true e)
        (inr (largest-Member c cs))
  | inr e ↦
      subst (λ l. Member l (best ∷ c ∷ cs)) (largest_pick best c cs false e)
        (Member-skip (largest best cs) best c cs (largest-Member best cs))
]

-- An index that is taken: that of a member that beats all of them.
pub record IsChosen (i : ℕ) (cs : List Candidate) : Type 0 where
  pub chosen : Candidate
  pub member : Member chosen cs
  pub index : chosen.index ≡ i
  pub beats : BeatsAll chosen cs

pub largest_index-IsChosen :
    (j : ℕ) (cs : List Candidate) (i : ℕ)
    → Ascending j cs
    → largest_index cs ≡ some i
    → IsChosen i cs
unfolding largest_index
largest_index-IsChosen j [] i a h = cc
largest_index-IsChosen j (c ∷ cs) i a h = record {
  chosen = largest c cs;
  member = largest-Member c cs;
  index = some-injective h;
  beats = largest-Beats c cs a.1;
}
