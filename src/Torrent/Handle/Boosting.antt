-- ===== src/Torrent/Handle/Boosting.antt =====
-- The rushed pieces of the playhead: `boost_piece` and `refocus`.
use stremio_libtorrent_serve.Base.{
  ℕ, ◌≡◌, refl, sym, subst, ◌∙◌, inl, inr, Bool, true, false, true≢false, List, [], ◌∷◌, number_key,
  ℕ_discrete, contains, Bool-cases, ite, if_pos, if_neg, ◌==◌, if◌then◌else◌,
}
use stremio_libtorrent_serve.Torrent.Handle.{Call, Handle, unrush, refocus}
use stremio_libtorrent_serve.Torrent.Handle.Priorities.{priority_of}

-- Whether the priority last asked for the piece by itself is the highest.
abbrev pub rushed : ℕ → List Call → Bool
rushed p [] = false
rushed p (Call.piece_priority q v ∷ calls) = ite (ℕ_discrete p q) (v == 7) (rushed p calls)
rushed p (Call.prioritize_files l ∷ calls) = rushed p calls
rushed p (Call.prioritize_pieces l ∷ calls) = priority_of p l == 7
rushed p (Call.file_priority j v ∷ calls) = rushed p calls
rushed p (Call.set_sequential_download b ∷ calls) = rushed p calls
rushed p (Call.set_piece_deadline q v ∷ calls) = rushed p calls
rushed p (Call.reset_piece_deadline q ∷ calls) = rushed p calls

rushed-slow :
    (p q v : ℕ) (calls : List Call)
    → (v == 7) ≡ false
    → rushed p (Call.piece_priority q v ∷ calls) ≡ true
    → rushed p calls ≡ true
rushed-slow p q v calls e r = elim (ℕ_discrete p q) [
  | yes x ↦ absurd (true≢false (sym r ∙ (if_pos (ℕ_discrete p q) x (v == 7) (rushed p calls) ∙ e)))
  | no x ↦ sym (if_neg (ℕ_discrete p q) x (v == 7) (rushed p calls)) ∙ r
]

rushed-unrush_other :
    (have : ℕ → Bool) (pieces : List ℕ) (calls : List Call) (p : ℕ)
    → rushed p (unrush have pieces calls) ≡ true
    → rushed p calls ≡ true
unfolding unrush
rushed-unrush_other have [] calls p r = r
rushed-unrush_other have (q ∷ pieces) calls p r = elim (Bool-cases (have q)) [
  | inl e ↦ rushed-unrush_other have pieces calls p (
      subst
        (λ b.
          rushed p (
            if b
            then unrush have pieces calls
            else unrush have pieces (Call.reset_piece_deadline q ∷ Call.piece_priority q 4 ∷ calls))
          ≡ true)
        e r)
  | inr e ↦
      let slow : List Call = Call.reset_piece_deadline q ∷ Call.piece_priority q 4 ∷ calls in
      rushed-slow p q 4 calls refl (
        rushed-unrush_other have pieces slow p (
          subst
            (λ b. rushed p (if b then unrush have pieces calls else unrush have pieces slow) ≡ true)
            e r))
]

-- Of the pieces that were dropped, only those that are there stay rushed.
rushed-unrush :
    (have : ℕ → Bool) (pieces : List ℕ) (calls : List Call) (p : ℕ)
    → contains p pieces ≡ true
    → rushed p (unrush have pieces calls) ≡ true
    → have p ≡ true
unfolding unrush contains
rushed-unrush have [] calls p c r = absurd (true≢false (sym c))
rushed-unrush have (q ∷ pieces) calls p c r = elim (Bool-cases (have q)) [
  | inl e ↦ elim (ℕ_discrete p q) [
    | yes x ↦ subst (λ n. have n ≡ true) (sym x) e
    | no x ↦
        rushed-unrush have pieces calls p
          (sym (if_neg (ℕ_discrete p q) x true (contains p pieces)) ∙ c)
          (subst
            (λ b.
              rushed p (
                if b
                then unrush have pieces calls
                else unrush have pieces
                    (Call.reset_piece_deadline q ∷ Call.piece_priority q 4 ∷ calls))
              ≡ true)
            e r)
  ]
  | inr e ↦
      let slow : List Call = Call.reset_piece_deadline q ∷ Call.piece_priority q 4 ∷ calls in
      let r' =
        subst
          (λ b. rushed p (if b then unrush have pieces calls else unrush have pieces slow) ≡ true) e
          r in
      elim (ℕ_discrete p q) [
        | yes x ↦ absurd (
            true≢false (
              sym (rushed-unrush_other have pieces slow p r')
              ∙ if_pos (ℕ_discrete p q) x false (rushed p calls)))
        | no x ↦
            rushed-unrush have pieces slow p
              (sym (if_neg (ℕ_discrete p q) x true (contains p pieces)) ∙ c) r'
      ]
]

-- After `refocus` the pieces of the earlier window that are still to be fetched are no longer
-- rushed, so that the new window has the bandwidth, and none is left in the window.
pub refocus-rushed :
    (have : ℕ → Bool) (h : Handle) (p : ℕ)
    → contains p h.boosted ≡ true
    → have p ≡ false
    → (rushed p (refocus have h).calls ≡ false) × ((refocus have h).boosted ≡ [])
unfolding refocus
refocus-rushed have h p c e = (
  elim (Bool-cases (rushed p (unrush have h.boosted h.calls))) [
    | inl r ↦ absurd (true≢false (sym (rushed-unrush have h.boosted h.calls p c r) ∙ e))
    | inr r ↦ r
  ],
  refl,
)
