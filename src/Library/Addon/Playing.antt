-- ===== src/Library/Addon/Playing.antt =====
-- What the file that is chosen of an entry is.
use stremio_libtorrent_serve.Base.{
  ℕ, ◌≤◌, ◌≡◌, refl, sym, ap, subst, ◌∙◌, ◌⊎◌, inl, inr, Bool, true, false, ◌&&◌, List, [], ◌∷◌,
  Option, none, some, arith, length, keep, ltb, if◌then◌else◌, Bool-cases, some-injective,
  if_some_inv, ◌||◌, is_empty,
}
use stremio_libtorrent_serve.Pins.Names.{Text}
use stremio_libtorrent_serve.Pins.Choosing.{same_text}
use stremio_libtorrent_serve.Library.Addon.Files.{
  File, Entry, is_complete, basename, is_addressable, addressable, largest, offered, find_named,
  lone_index, main_index, wanted_or_main, wanted_in, playable_index, main_offered,
  names_video_episode, episode_index, label_alone_names_the_file,
}
use stremio_libtorrent_serve.Library.Addon.Streams.{
  can_mean, matching_files, only_offered, recorded_index, episode_of, fallback, first_of, chosen_by,
  is_none,
}

abbrev pub Among : File → List File → Type 0
Among f [] = ⊥
Among f (g ∷ gs) = (f ≡ g) ⊎ Among f gs

-- A file of the list that has the index, and all of whose bytes are there.
pub record IsWhole (i : ℕ) (files : List File) : Type 0 where
  pub file : File
  pub member : Among file files
  pub index : file.index ≡ some i
  pub complete : is_complete file ≡ true

pub Among-keep : (p : File → Bool) (f : File) (fs : List File) → Among f (keep p fs) → Among f fs
unfolding keep
Among-keep p f [] h = h
Among-keep p f (g ∷ gs) h = elim (Bool-cases (p g)) [
  | inl e ↦ elim (subst (λ l. Among f l) (kept e) h) [
    | inl q ↦ inl q
    | inr q ↦ inr (Among-keep p f gs q)
  ]
  | inr e ↦ inr (Among-keep p f gs (subst (λ l. Among f l) (left e) h))
]
  where
    kept : p g ≡ true → keep p (g ∷ gs) ≡ g ∷ keep p gs
    kept e = rw e refl

    left : p g ≡ false → keep p (g ∷ gs) ≡ keep p gs
    left e = rw e refl

largest_pick :
    (best f : File) (fs : List File) (b : Bool)
    → ltb best.size f.size ≡ b
    → largest (if b then f else best) fs ≡ largest best (f ∷ fs)
unfolding largest
largest_pick best f fs b e = ap (λ a. largest (if a then f else best) fs) (sym e)

Among-skip : (g best f : File) (fs : List File) → Among g (best ∷ fs) → Among g (best ∷ f ∷ fs)
Among-skip g best f fs (inl q) = inl q
Among-skip g best f fs (inr q) = inr (inr q)

largest-Among : (best : File) (fs : List File) → Among (largest best fs) (best ∷ fs)
unfolding largest
largest-Among best [] = inl refl
largest-Among best (f ∷ fs) = elim (Bool-cases (ltb best.size f.size)) [
  | inl e ↦
      subst (λ g. Among g (best ∷ f ∷ fs)) (largest_pick best f fs true e)
        (inr (largest-Among f fs))
  | inr e ↦
      subst (λ g. Among g (best ∷ f ∷ fs)) (largest_pick best f fs false e)
        (Among-skip (largest best fs) best f fs (largest-Among best fs))
]

offered-IsWhole :
    (f : File) (files : List File) (i : ℕ) → Among f files → offered f ≡ some i → IsWhole i files
unfolding offered
offered-IsWhole f files i m h = record {
  file = f;
  member = m;
  index = ground arith;
  complete = ground arith;
}

IsWhole-keep :
    (p : File → Bool) (i : ℕ) (files : List File) → IsWhole i (keep p files) → IsWhole i files
IsWhole-keep p i files w = record {
  file = w.file;
  member = Among-keep p w.file files w.member;
  index = w.index;
  complete = w.complete;
}

-- An entry of which no file has an index, and that lists at most one, which is there in full.
abbrev pub IsLone : ℕ → Entry → Type 0
IsLone i e =
    (addressable e.files ≡ [])
    × (i ≡ 0)
    × (length e.files ≤ 1)
    × ((f : File) → Among f e.files → is_complete f ≡ true)

abbrev pub CanPlay : ℕ → Entry → Type 0
CanPlay i e = IsWhole i e.files ⊎ IsLone i e

only : (f g : File) → is_complete g ≡ true → Among f (g ∷ []) → is_complete f ≡ true
only f g e (inl q) = ap is_complete q ∙ e
only f g e (inr q) = absurd q

IsWhole-of :
    (e : Entry) (fs : List File) (i : ℕ)
    → addressable e.files ≡ fs
    → IsWhole i fs
    → IsWhole i e.files
unfolding addressable
IsWhole-of e fs i a w = IsWhole-keep is_addressable i e.files (subst (IsWhole i) (sym a) w)

lone_index-Lone :
    (files : List File) (i : ℕ)
    → lone_index files ≡ some i
    → (i ≡ 0) × (length files ≤ 1) × ((f : File) → Among f files → is_complete f ≡ true)
unfolding lone_index
lone_index-Lone [] i h = (ground arith, omega arith, λ f m. absurd m)
lone_index-Lone (g ∷ []) i h =
    let (b, e) = if_some_inv (is_complete g) (some 0) h in
    (sym (some-injective e), omega arith, λ f m. only f g b m)
lone_index-Lone (g ∷ k ∷ files) i h = cc

main_index-CanPlay :
    (fs : List File) (e : Entry) (i : ℕ)
    → addressable e.files ≡ fs
    → main_index fs e.files ≡ some i
    → CanPlay i e
unfolding main_index
main_index-CanPlay [] e i a h = let (z, l, all) = lone_index-Lone e.files i h in inr (a, z, l, all)
main_index-CanPlay (f ∷ fs) e i a h =
    inl
      (IsWhole-of e (f ∷ fs) i a (offered-IsWhole (largest f fs) (f ∷ fs) i (largest-Among f fs) h))

find_named-Among :
    (base : Text) (fs : List File) (f : File) → find_named base fs ≡ some f → Among f fs
unfolding find_named
find_named-Among base [] f h = cc
find_named-Among base (g ∷ gs) f h = elim (Bool-cases (same_text (basename g.name) base)) [
  | inl e ↦ inl (sym (some-injective (rw e at h)))
  | inr e ↦ inr (find_named-Among base gs f (rw e at h))
]

wanted_in-Among :
    (wanted : Text) (fs : List File) (f : File) → wanted_in wanted fs ≡ some f → Among f fs
unfolding wanted_in
wanted_in-Among [] fs f h = unfold is_empty in cc
wanted_in-Among (c ∷ wanted) fs f h =
    find_named-Among (basename (c ∷ wanted)) fs f (unfold is_empty in h)

wanted_or_main-CanPlay :
    (o : Option File) (e : Entry) (i : ℕ)
    → wanted_in e.wanted_file (addressable e.files) ≡ o
    → wanted_or_main o (addressable e.files) e.files ≡ some i
    → CanPlay i e
unfolding wanted_or_main
wanted_or_main-CanPlay none e i w h = main_index-CanPlay (addressable e.files) e i refl h
wanted_or_main-CanPlay (some f) e i w h =
    let fs = addressable e.files in
    inl (IsWhole-of e fs i refl (offered-IsWhole f fs i (wanted_in-Among e.wanted_file fs f w) h))

pub playable_index-CanPlay : (e : Entry) (i : ℕ) → playable_index e ≡ some i → CanPlay i e
unfolding playable_index
playable_index-CanPlay e i h =
    wanted_or_main-CanPlay (wanted_in e.wanted_file (addressable e.files)) e i refl h

main_offered-IsWhole : (fs : List File) (i : ℕ) → main_offered fs ≡ some i → IsWhole i fs
unfolding main_offered
main_offered-IsWhole [] i h = cc
main_offered-IsWhole (f ∷ fs) i h = offered-IsWhole (largest f fs) (f ∷ fs) i (largest-Among f fs) h

only_offered-IsWhole : (fs : List File) (i : ℕ) → only_offered fs ≡ some i → IsWhole i fs
unfolding only_offered
only_offered-IsWhole [] i h = cc
only_offered-IsWhole (f ∷ []) i h = offered-IsWhole f (f ∷ []) i (inl refl) h
only_offered-IsWhole (f ∷ g ∷ fs) i h = cc

recorded_index-IsWhole :
    (e : Entry) (name : Text) (size i : ℕ) → recorded_index e name size ≡ some i → IsWhole i e.files
unfolding recorded_index matching_files
recorded_index-IsWhole e name size i h =
    IsWhole-keep (can_mean size name) i e.files
      (IsWhole-keep is_addressable i _ (only_offered-IsWhole _ i h))

episode_of-IsWhole :
    (e : Entry) (season episode : Option ℕ) (i : ℕ)
    → episode_of e season episode ≡ some i
    → IsWhole i e.files
unfolding episode_of episode_index
episode_of-IsWhole e (some s) (some n) i h =
    IsWhole-keep (names_video_episode s n) i e.files (main_offered-IsWhole _ i h)
episode_of-IsWhole e none n i h = cc
episode_of-IsWhole e (some s) none i h = cc

fallback-CanPlay :
    (own : Bool) (season : Option ℕ) (e : Entry) (i : ℕ)
    → fallback own season e ≡ some i
    → CanPlay i e
unfolding fallback
fallback-CanPlay own season e i h =
    let test = own && (is_none season || label_alone_names_the_file e) in
    playable_index-CanPlay e i (if_some_inv test (playable_index e) h).1

first_of-CanPlay :
    (o p : Option ℕ) (e : Entry) (i : ℕ)
    → (o ≡ some i → CanPlay i e)
    → (p ≡ some i → CanPlay i e)
    → first_of o p ≡ some i
    → CanPlay i e
unfolding first_of
first_of-CanPlay none p e i k l h = l h
first_of-CanPlay (some j) p e i k l h = k h

pub chosen_by-CanPlay :
    (own : Bool) (file : Option (Text × ℕ)) (e : Entry) (season episode : Option ℕ) (i : ℕ)
    → chosen_by own file e season episode ≡ some i
    → CanPlay i e
unfolding chosen_by
chosen_by-CanPlay true (some (name, size)) e season episode i h =
    inl (recorded_index-IsWhole e name size i h)
chosen_by-CanPlay true none e season episode i h =
    first_of-CanPlay _ _ e i (λ k. inl (episode_of-IsWhole e season episode i k))
      (fallback-CanPlay true season e i) h
chosen_by-CanPlay false file e season episode i h =
    first_of-CanPlay _ _ e i (λ k. inl (episode_of-IsWhole e season episode i k))
      (fallback-CanPlay false season e i) h
