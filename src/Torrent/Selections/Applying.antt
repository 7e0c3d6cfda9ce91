-- ===== src/Torrent/Selections/Applying.antt =====
-- What a handle wants once its selectors were applied.
use stremio_libtorrent_serve.Base.{
  ℕ, ◌≡◌, refl, sym, ap, ◌∙◌, Bool, true, false, ◌&&◌, ◌||◌, List, [], ◌∷◌, some, number_key,
  ℕ_discrete, contains, contains-add, add, ite, if_pos, if_neg, ltb, if◌then◌else◌,
}
use stremio_libtorrent_serve.Pins.Names.{Want}
use stremio_libtorrent_serve.Torrent.Handle.{
  Handle, want_known, want_file, reapply_priorities, call,
}
use stremio_libtorrent_serve.Torrent.Selections.{
  Contents, resolve_all, narrowed, want_files, want_narrowed, apply_wanted,
}

-- Whether a file is wanted: before, or by its index among those that were asked for.
abbrev pub wants : List ℕ → ℕ → List ℕ → ℕ → Bool
wants is n before j = contains j before || contains j is && ltb j n

or_false : (b : Bool) → b || false ≡ b
or_false true = refl
or_false false = refl

picked-wants :
    (b : Bool) (i j : ℕ) (h : Handle)
    → contains j (if b then reapply_priorities (record h { wanted = add i h.wanted }) else h).wanted
      ≡ ite (ℕ_discrete j i) (b || contains j h.wanted) (contains j h.wanted)
unfolding reapply_priorities call add
picked-wants true i j h = contains-add i j h.wanted
picked-wants false i j h = elim (ℕ_discrete j i) [
  | yes p ↦ sym (if_pos (ℕ_discrete j i) p (contains j h.wanted) (contains j h.wanted))
  | no p ↦ sym (if_neg (ℕ_discrete j i) p (contains j h.wanted) (contains j h.wanted))
]

picked-files :
    (b : Bool) (i : ℕ) (h : Handle)
    → (if b then reapply_priorities (record h { wanted = add i h.wanted }) else h).files ≡ h.files
unfolding reapply_priorities call add
picked-files true i h = refl
picked-files false i h = refl

absorbed : (l c d : Bool) → (l || c) || (d && l) ≡ c || (true && l)
absorbed true true d = refl
absorbed true false d = refl
absorbed false true d = refl
absorbed false false true = refl
absorbed false false false = refl

want_files-wants :
    (is : List ℕ) (n j : ℕ) (h : Handle)
    → h.files ≡ some n
    → contains j (want_files is h).wanted ≡ wants is n h.wanted j
unfolding want_files want_file want_known contains
want_files-wants [] n j h f = sym (or_false (contains j h.wanted))
want_files-wants (i ∷ is) n j h f =
    let next = want_known (some n) i h in
    let c = contains j h.wanted in
    let d = contains j is in
    ap (λ o. contains j (want_files is (want_known o i h)).wanted) f
    ∙ want_files-wants is n j next (picked-files (ltb i n) i h ∙ f)
    ∙ ap (λ b. b || (d && ltb j n)) (picked-wants (ltb i n) i j h)
    ∙ elim (ℕ_discrete j i) [
      | yes p ↦
          ap (λ b. b || (d && ltb j n)) (if_pos (ℕ_discrete j i) p (ltb i n || c) c)
          ∙ ap (λ k. (ltb k n || c) || (d && ltb j n)) (sym p)
          ∙ absorbed (ltb j n) c d
          ∙ ap (λ b. c || (b && ltb j n)) (sym (if_pos (ℕ_discrete j i) p true d))
      | no p ↦
          ap (λ b. b || (d && ltb j n)) (if_neg (ℕ_discrete j i) p (ltb i n || c) c)
          ∙ ap (λ b. c || (b && ltb j n)) (sym (if_neg (ℕ_discrete j i) p true d))
    ]

-- Where every selector has a file of the torrent, exactly those files become wanted, beside the ones
-- that were, and none stops to be.
pub apply_wanted-wants :
    (c : Contents) (specs : List Want) (is : List ℕ) (n j : ℕ) (h : Handle)
    → h.files ≡ some n
    → narrowed (resolve_all c.files specs) ≡ some is
    → contains j (apply_wanted c specs h).wanted ≡ wants is n h.wanted j
unfolding apply_wanted want_narrowed
apply_wanted-wants c specs is n j h f r =
    ap (λ o. contains j (want_narrowed c.pieces o h).wanted) r ∙ want_files-wants is n j h f
