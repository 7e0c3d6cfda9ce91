-- ===== src/Torrent/Handle/Priorities.antt =====
-- The priority of every file of a torrent, exactly.
use stremio_libtorrent_serve.Base.{
  ℕ, zero, suc, ◌<◌, ◌≡◌, refl, sym, ap, subst, ◌∙◌, inl, inr, Bool, ◌&&◌, ◌||◌, List, [], ◌∷◌,
  Option, none, some, number_key, ℕ_discrete, contains, length, arith, Bool-cases, ite, if_pos,
  if_neg, if◌then◌else◌,
}
use stremio_libtorrent_serve.Torrent.Handle.{
  Handle, repeat, set_at, mark_wanted, is_none, base_priorities, is_active, num_files, with_focus,
  priorities,
}

-- `l[i]`, and 0 out of range.
abbrev pub priority_of : ℕ → List ℕ → ℕ
priority_of i [] = 0
priority_of zero (x ∷ l) = x
priority_of (suc i) (x ∷ l) = priority_of i l

pub priority_of-repeat : (i v n : ℕ) → i < n → priority_of i (repeat v n) ≡ v
unfolding repeat
priority_of-repeat i v zero h = omega arith
priority_of-repeat zero v (suc n) h = refl
priority_of-repeat (suc i) v (suc n) h = priority_of-repeat i v n (omega arith)

length-repeat : (v n : ℕ) → length (repeat v n) ≡ n
unfolding repeat
length-repeat v zero = refl
length-repeat v (suc n) = ap suc (length-repeat v n)

length-set_at : (i v : ℕ) (l : List ℕ) → length (set_at i v l) ≡ length l
unfolding set_at
length-set_at i v [] = refl
length-set_at zero v (x ∷ l) = refl
length-set_at (suc i) v (x ∷ l) = ap suc (length-set_at i v l)

priority_of-set_same : (i v : ℕ) (l : List ℕ) → i < length l → priority_of i (set_at i v l) ≡ v
unfolding set_at
priority_of-set_same i v [] h = omega arith
priority_of-set_same zero v (x ∷ l) h = refl
priority_of-set_same (suc i) v (x ∷ l) h = priority_of-set_same i v l (omega arith)

priority_of-set_other :
    (i j v : ℕ) (l : List ℕ) → ¬ (j ≡ i) → priority_of j (set_at i v l) ≡ priority_of j l
unfolding set_at
priority_of-set_other i j v [] h = refl
priority_of-set_other zero zero v (x ∷ l) h = absurd (h refl)
priority_of-set_other zero (suc j) v (x ∷ l) h = refl
priority_of-set_other (suc i) zero v (x ∷ l) h = refl
priority_of-set_other (suc i) (suc j) v (x ∷ l) h =
    priority_of-set_other i j v l (λ e. h (ap suc e))

priority_of-mark :
    (wanted : List ℕ) (j : ℕ) (l : List ℕ)
    → j < length l
    → priority_of j (mark_wanted wanted l) ≡ (if contains j wanted then 1 else priority_of j l)
unfolding mark_wanted contains
priority_of-mark [] j l h = refl
priority_of-mark (i ∷ wanted) j l h =
    let rest =
      priority_of-mark wanted j (set_at i 1 l) (subst (λ n. j < n) (sym (length-set_at i 1 l)) h) in
    elim (ℕ_discrete j i) [
      | yes p ↦
          let here : priority_of j (set_at i 1 l) ≡ 1 =
            subst (λ x. priority_of j (set_at x 1 l) ≡ 1) p (priority_of-set_same j 1 l h) in
          ground (arith, p, here, rest)
      | no p ↦ let other = priority_of-set_other i j 1 l p in ground (arith, p, other, rest)
    ]

base-exact :
    (pinned : Bool) (wanted : List ℕ) (n i : ℕ)
    → i < n
    → priority_of i (base_priorities pinned wanted n)
      ≡ (if contains i wanted || (pinned && is_none wanted) then 1 else 0)
unfolding base_priorities
base-exact pinned wanted n i h =
    let zero = priority_of-repeat i 0 n h in
    let one = priority_of-repeat i 1 n h in
    let marked =
      priority_of-mark wanted i (repeat 0 n) (subst (λ m. i < m) (sym (length-repeat 0 n)) h) in
    elim (Bool-cases (pinned && is_none wanted)) [
      | inl e ↦ elim (Bool-cases (contains i wanted)) [
        | inl c ↦ rw (e, c) one
        | inr c ↦ rw (e, c) one
      ]
      | inr e ↦ elim (Bool-cases (contains i wanted)) [
        | inl c ↦ rw (e, c) (marked ∙ rw c refl)
        | inr c ↦ rw (e, c) (marked ∙ rw c zero)
      ]
    ]

length-mark : (wanted l : List ℕ) → length (mark_wanted wanted l) ≡ length l
unfolding mark_wanted
length-mark [] l = refl
length-mark (i ∷ wanted) l = length-mark wanted (set_at i 1 l) ∙ length-set_at i 1 l

length-base :
    (pinned : Bool) (wanted : List ℕ) (n : ℕ) → length (base_priorities pinned wanted n) ≡ n
unfolding base_priorities
length-base pinned wanted n = elim (Bool-cases (pinned && is_none wanted)) [
  | inl e ↦ rw e (length-repeat 1 n)
  | inr e ↦ rw e (length-mark wanted (repeat 0 n) ∙ length-repeat 0 n)
]

-- What the file at `i` should get: the file that is played, by whether a stream is open; else 1 if
-- it is wanted, or if a pin with no selection wants all; else 0.
abbrev due_unplayed : Handle → ℕ → ℕ
due_unplayed h i = if contains i h.wanted || (h.pinned && is_none h.wanted) then 1 else 0

abbrev pub due : Option ℕ → Handle → ℕ → ℕ
due none h i = due_unplayed h i
due (some f) h i = ite (ℕ_discrete i f) (if is_active h then 4 else 1) (due_unplayed h i)

-- The list of priorities gives every file of the torrent exactly what is due to it.
pub priorities-due :
    (focus : Option ℕ) (h : Handle) (i : ℕ)
    → i < num_files h.files
    → priority_of i (priorities focus h) ≡ due focus h i
unfolding priorities with_focus
priorities-due none h i b = base-exact h.pinned h.wanted (num_files h.files) i b
priorities-due (some f) h i b =
    let prios = base_priorities h.pinned h.wanted (num_files h.files) in
    let v : ℕ = if is_active h then 4 else 1 in
    elim (ℕ_discrete i f) [
      | yes p ↦
          let same =
            priority_of-set_same i v prios
              (subst (λ m. i < m) (sym (length-base h.pinned h.wanted _)) b) in
          rw (if_pos (ℕ_discrete i f) p v (due_unplayed h i))
            (subst (λ x. priority_of i (set_at x v prios) ≡ v) p same)
      | no p ↦ rw (if_neg (ℕ_discrete i f) p v (due_unplayed h i)) (
          priority_of-set_other f i v prios p
          ∙ base-exact h.pinned h.wanted (num_files h.files) i b)
    ]
