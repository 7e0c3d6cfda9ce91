-- ===== src/Torrent/Handle/Wanting.antt =====
-- A wanted file is never skipped: what the calls to libtorrent ask for it, whatever is done to the
-- handle. By libtorrent's documentation, `prioritize_files` sets the priority of every file,
-- `file_priority` that of one, and a file has priority 4 until then.
use stremio_libtorrent_serve.Base.{
  ℕ, suc, ◌-◌, ◌≤◌, ◌<◌, ◌≡◌, refl, sym, subst, inl, inr, Bool, true, false, ◌&&◌, List, [], ◌∷◌,
  Option, none, some, number_key, ℕ_discrete, contains, add, arith, Bool-cases, ite, if_pos, if_neg,
  ltb, ◌==◌,
}
use stremio_libtorrent_serve.Torrent.Handle.{
  Call, Handle, new_handle, is_none, num_files, priorities, call, focus_known, is_focus, focus_file,
  want_all_known, want_all_files, reapply_priorities, want_known, want_file, focused_priority,
  set_focused_priority, mark_active, mark_idle, boost_piece, unrush, refocus, arm_all, prefetch_arm,
  note_read_position, pin_handle, unpin_handle, full_priority, pin_known,
}
use stremio_libtorrent_serve.Torrent.Handle.Priorities.{
  priority_of, priority_of-repeat, due, priorities-due,
}

-- The priority last asked for the file.
abbrev pub asked : ℕ → List Call → ℕ
asked i [] = 4
asked i (Call.prioritize_files l ∷ calls) = priority_of i l
asked i (Call.file_priority j p ∷ calls) = ite (ℕ_discrete i j) p (asked i calls)
asked i (Call.set_sequential_download b ∷ calls) = asked i calls
asked i (Call.piece_priority p v ∷ calls) = asked i calls
asked i (Call.prioritize_pieces l ∷ calls) = asked i calls
asked i (Call.set_piece_deadline p v ∷ calls) = asked i calls
asked i (Call.reset_piece_deadline p ∷ calls) = asked i calls

-- A method of the handle, called by any thread.
pub data Step : Handle → Handle → Type 0 where
  focusing : (i : ℕ) (h : Handle) → Step h (focus_file i h)
  wanting : (i : ℕ) (h : Handle) → Step h (want_file i h)
  wanting_all : (h : Handle) → Step h (want_all_files h)
  pinning : (pieces : ℕ) (h : Handle) → Step h (pin_handle pieces h)
  unpinning : (h : Handle) → Step h (unpin_handle h)
  opening : (h : Handle) → Step h (mark_active h)
  closing : (h : Handle) → Step h (mark_idle h)
  boosting :
      (piece deadline : ℕ) (keep_existing : Bool) (h : Handle)
      → Step h (boost_piece piece deadline keep_existing h)
  refocusing : (have : ℕ → Bool) (h : Handle) → Step h (refocus have h)
  arming : (pieces : List ℕ) (h : Handle) → Step h (prefetch_arm pieces h)
  reading : (pos total : ℕ) (h : Handle) → Step h (note_read_position pos total h)

pub data Reach (files : Option ℕ) : Handle → Type 0 where
  start : Reach files (new_handle files)
  next : (h t : Handle) → Reach files h → Step h t → Reach files t

abbrev pub Fetched : Handle → Type 0
Fetched h = (i : ℕ) → i < num_files h.files → contains i h.wanted ≡ true → 1 ≤ asked i h.calls

due-positive :
    (focus : Option ℕ) (h : Handle) (i : ℕ) → contains i h.wanted ≡ true → 1 ≤ due focus h i
due-positive none h i e = ground (arith, e)
due-positive (some f) h i e = ground (arith, e)

priorities-positive :
    (focus : Option ℕ) (h : Handle) (i : ℕ)
    → i < num_files h.files
    → contains i h.wanted ≡ true
    → 1 ≤ priority_of i (priorities focus h)
priorities-positive focus h i b e =
    subst (λ x. 1 ≤ x) (sym (priorities-due focus h i b)) (due-positive focus h i e)

focused_priority-Fetched :
    (o : Option ℕ) (prio : ℕ) (h : Handle)
    → 1 ≤ prio
    → Fetched h
    → Fetched (focused_priority o prio h)
unfolding focused_priority call
focused_priority-Fetched none prio h p f = f
focused_priority-Fetched (some j) prio h p f = λ i b e. elim (ℕ_discrete i j) [
  | yes q ↦ rw (if_pos (ℕ_discrete i j) q prio (asked i h.calls)) p
  | no q ↦ rw (if_neg (ℕ_discrete i j) q prio (asked i h.calls)) (f i b e)
]

asked-unrush :
    (have : ℕ → Bool) (pieces : List ℕ) (calls : List Call) (i : ℕ)
    → asked i (unrush have pieces calls) ≡ asked i calls
unfolding unrush
asked-unrush have [] calls i = refl
asked-unrush have (p ∷ pieces) calls i = elim (Bool-cases (have p)) [
  | inl e ↦ rw (e, unrush) (asked-unrush have pieces calls i)
  | inr e ↦
      rw (e, unrush)
        (asked-unrush have pieces (Call.reset_piece_deadline p ∷ Call.piece_priority p 4 ∷ calls) i)
]

asked-arm :
    (pieces : List ℕ) (calls : List Call) (i : ℕ) → asked i (arm_all pieces calls) ≡ asked i calls
unfolding arm_all
asked-arm [] calls i = refl
asked-arm (p ∷ pieces) calls i = asked-arm pieces (Call.piece_priority p 1 ∷ calls) i

focus_known-Fetched : (o : Option ℕ) (i : ℕ) (h : Handle) → Fetched h → Fetched (focus_known o i h)
unfolding focus_known call
focus_known-Fetched none i h f = f
focus_known-Fetched (some n) i h f =
    λ j b e. priorities-positive (some i) (record h { wanted = add i h.wanted }) j b e

want_known-Fetched : (o : Option ℕ) (i : ℕ) (h : Handle) → Fetched h → Fetched (want_known o i h)
unfolding want_known reapply_priorities call
want_known-Fetched none i h f = f
want_known-Fetched (some n) i h f = elim (Bool-cases (ltb i n)) [
  | inl e ↦
      rw (e, want_known)
        (λ j b c. priorities-positive h.focused (record h { wanted = add i h.wanted }) j b c)
  | inr e ↦ rw (e, want_known) f
]

want_all_known-Fetched :
    (o : Option ℕ) (h : Handle) → h.files ≡ o → Fetched h → Fetched (want_all_known o h)
unfolding want_all_known call num_files
want_all_known-Fetched none h q f = f
want_all_known-Fetched (some n) h q f = λ i b e.
    let b' : i < n = subst (λ o. i < num_files o) q b in
    subst (λ x. 1 ≤ x) (sym (priority_of-repeat i 1 n b')) (omega arith)

full_priority-Fetched : (pieces : ℕ) (h : Handle) → Fetched h → Fetched (full_priority pieces h)
unfolding full_priority want_all_files call
full_priority-Fetched pieces h f =
    let w = want_all_known-Fetched h.files h refl f in
    elim (Bool-cases (ltb 0 pieces)) [
      | inl e ↦ rw (e, full_priority) w
      | inr e ↦ rw (e, full_priority) w
    ]

pin_known-Fetched :
    (o : Option ℕ) (pieces : ℕ) (h : Handle) → Fetched h → Fetched (pin_known o pieces h)
unfolding pin_known reapply_priorities call
pin_known-Fetched none pieces h f = f
pin_known-Fetched (some n) pieces h f = elim (Bool-cases (is_none h.wanted)) [
  | inl e ↦ rw (e, pin_known) (full_priority-Fetched pieces h f)
  | inr e ↦ rw (e, pin_known) (λ i b c. priorities-positive h.focused h i b c)
]

Step-Fetched : (h t : Handle) → Step h t → Fetched h → Fetched t
unfolding focus_file want_file want_all_files pin_handle unpin_handle reapply_priorities call
    mark_active mark_idle set_focused_priority boost_piece refocus prefetch_arm note_read_position
Step-Fetched h t (Step.focusing i h') f = elim (Bool-cases (is_focus h.focused i)) [
  | inl e ↦ rw (e, focus_file) f
  | inr e ↦ rw (e, focus_file) (focus_known-Fetched h.files i _ f)
]
Step-Fetched h t (Step.wanting i h') f = want_known-Fetched h.files i h f
Step-Fetched h t (Step.wanting_all h') f = want_all_known-Fetched h.files h refl f
Step-Fetched h t (Step.pinning pieces h') f =
    pin_known-Fetched h.files pieces (record h { pinned = true }) f
Step-Fetched h t (Step.unpinning h') f =
    λ i b e. priorities-positive h.focused (record h { pinned = false }) i b e
Step-Fetched h t (Step.opening h') f = elim (Bool-cases (suc h.active == 1)) [
  | inl e ↦ rw (e, mark_active) (focused_priority-Fetched h.focused 4 _ (omega arith) f)
  | inr e ↦ rw (e, mark_active) f
]
Step-Fetched h t (Step.closing h') f = elim (Bool-cases (h.active - 1 == 0)) [
  | inl e ↦ rw (e, mark_idle) (focused_priority-Fetched h.focused 1 _ (omega arith) f)
  | inr e ↦ rw (e, mark_idle) f
]
Step-Fetched h t (Step.boosting piece deadline keep_existing h') f =
    elim (Bool-cases (keep_existing && contains piece h.boosted)) [
      | inl e ↦ rw (e, boost_piece) f
      | inr e ↦ rw (e, boost_piece) f
    ]
Step-Fetched h t (Step.refocusing have h') f =
    λ i b e. subst (λ x. 1 ≤ x) (sym (asked-unrush have h.boosted h.calls i)) (f i b e)
Step-Fetched h t (Step.arming pieces h') f =
    λ i b e. subst (λ x. 1 ≤ x) (sym (asked-arm pieces h.calls i)) (f i b e)
Step-Fetched h t (Step.reading pos total h') f = f

reach-Fetched : (files : Option ℕ) (h : Handle) → Reach files h → Fetched h
unfolding contains
reach-Fetched files h Reach.start = λ i b e. omega arith
reach-Fetched files t (Reach.next h t' reach step) =
    Step-Fetched h t step (reach-Fetched files h reach)

-- However a torrent's files are played, wanted, pinned and unpinned, and its pieces rushed, the
-- priority last asked for a wanted file is never 0: wanting or playing another does not skip it.
pub Reach-asked :
    (files : Option ℕ) (h : Handle) (i : ℕ)
    → Reach files h
    → i < num_files h.files
    → contains i h.wanted ≡ true
    → 1 ≤ asked i h.calls
Reach-asked files h i reach b e = reach-Fetched files h reach i b e
