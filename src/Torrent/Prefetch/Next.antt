-- ===== src/Torrent/Prefetch/Next.antt =====
-- `next_video_index` and the natural order.
use stremio_libtorrent_serve.Base.{
  ℕ, zero, suc, ◌≤◌, ◌+◌, ◌/◌, max, ◌≡◌, ◌≢◌, refl, sym, ap, subst, ◌∙◌, ◌⊎◌, inl, inr, Bool, true,
  false, ◌&&◌, List, [], ◌∷◌, some, leb, ◌==◌, arith, Bool-cases, some-injective, none≢some, leb→le,
  true≢false,
}
use stremio_libtorrent_serve.Stream.Types.{is_video}
use stremio_libtorrent_serve.Torrent.Prefetch.Order.{Split, natural_key, less_key}
use stremio_libtorrent_serve.Torrent.Prefetch.Keys.{less_key_irrefl}
use stremio_libtorrent_serve.Torrent.Prefetch.Sorting.{
  Least, Sorted, sort-Sorted, Member, sort-Member, Distinct, sort-Distinct,
}
use stremio_libtorrent_serve.Torrent.Prefetch.{
  FileSlot, min_video_bytes, eligible_from, sort, first_of, behind_current, file_at, next_of,
  next_video_index,
}

Least-Member :
    (m k : Split) (i : ℕ) (l : List (ℕ × Split)) → Least m l → Member i k l → less_key k m ≡ false
Least-Member m k i [] least e = absurd e
Least-Member m k i ((j, b) ∷ rest) (h, least) (inl e) = rw (e.1) h
Least-Member m k i ((j, b) ∷ rest) (h, least) (inr n) = Least-Member m k i rest least n

-- Two entries of a list between which none stands.
record Adjacent (i j : ℕ) (l : List (ℕ × Split)) : Type 0 where
  apart : i ≢ j
  this : Split
  next : Split
  has_this : Member i this l
  has_next : Member j next l
  ordered : less_key next this ≡ false
  none_between :
      (k : ℕ) (key : Split)
      → Member k key l
      → (less_key this key ≡ false) ⊎ (less_key key next ≡ false)

first_of-Adjacent :
    (i j : ℕ) (k : Split) (rest : List (ℕ × Split))
    → Sorted ((i, k) ∷ rest)
    → Distinct ((i, k) ∷ rest)
    → first_of rest ≡ some j
    → Adjacent i j ((i, k) ∷ rest)
unfolding first_of
first_of-Adjacent i j k [] s d e = absurd (none≢some e)
first_of-Adjacent i j k ((a, b) ∷ rest) ((h, least), (low, s)) d e = record {
  apart = λ q. d.0 b (inl (q ∙ sym (some-injective e), refl));
  this = k;
  next = b;
  has_this = inl (refl, refl);
  has_next = inr (inl (sym (some-injective e), refl));
  ordered = h;
  none_between = λ c key m. elim m [
    | inl q ↦ inl (rw (q.1) (less_key_irrefl k))
    | inr n ↦ elim n [
      | inl q ↦ inr (rw (q.1) (less_key_irrefl b))
      | inr o ↦ inr (Least-Member b key c rest low o)
    ]
  ];
}

behind_current-Adjacent :
    (i j : ℕ) (l : List (ℕ × Split))
    → Sorted l
    → Distinct l
    → behind_current i l ≡ some j
    → Adjacent i j l
unfolding behind_current
behind_current-Adjacent i j [] s d e = absurd (none≢some e)
behind_current-Adjacent i j ((a, b) ∷ rest) s d e = elim (Bool-cases (a == i)) [
  | inl t ↦
      let same : a ≡ i = ground (arith, t) in
      let e' = rw t at e in rw same (first_of-Adjacent i j b rest s (rw same at d) e')
  | inr f ↦
      let found = behind_current-Adjacent i j rest s.1 d.1 (rw f at e) in
      record {
        apart = found.apart;
        this = found.this;
        next = found.next;
        has_this = inr found.has_this;
        has_next = inr found.has_next;
        ordered = found.ordered;
        none_between = λ c key m. elim m [
          | inl q ↦ inl (rw (q.1) (Least-Member b found.this i rest s.0 found.has_this))
          | inr n ↦ found.none_between c key n
        ];
      }
]

-- Large enough to be an episode beside the file that plays.
abbrev pub IsEpisode : ℕ → FileSlot → Type 0
IsEpisode floor f = (is_video f.path ≡ true) × (floor ≤ f.size)

episode_test :
    (v : Bool) (a b : ℕ)
    → (v && leb a b ≡ true → (v ≡ true) × (a ≤ b)) × ((v ≡ true) × (a ≤ b) → v && leb a b ≡ true)
episode_test true a b = (λ e. (refl, leb→le a b e), λ (v, l). ground (arith, l))
episode_test false a b = (λ e. absurd (true≢false (sym e)), λ (v, l). v)

-- The entry of a file.
record Entry (floor i k : ℕ) (key : Split) (files : List FileSlot) : Type 0 where
  place : ℕ
  file : FileSlot
  counted : k ≡ i + place
  found : file_at place files ≡ some file
  keyed : key ≡ natural_key file.path
  episode : IsEpisode floor file

Entry-later :
    {floor i k : ℕ} {key : Split} {files : List FileSlot} (f : FileSlot)
    → Entry floor (suc i) k key files
    → Entry floor i k key (f ∷ files)
unfolding file_at
Entry-later f e = record {
  place = suc e.place;
  file = e.file;
  counted = omega (arith, e.counted);
  found = e.found;
  keyed = e.keyed;
  episode = e.episode;
}

eligible_from-Entry :
    (floor i k : ℕ) (key : Split) (files : List FileSlot)
    → Member k key (eligible_from floor i files)
    → Entry floor i k key files
unfolding eligible_from file_at
eligible_from-Entry floor i k key [] m = absurd m
eligible_from-Entry floor i k key (f ∷ files) m =
    elim (Bool-cases (is_video f.path && leb floor f.size)) [
      | inr n ↦ Entry-later f (eligible_from-Entry floor (suc i) k key files (rw n at m))
      | inl y ↦ elim (rw y at m) [
        | inr n ↦ Entry-later f (eligible_from-Entry floor (suc i) k key files n)
        | inl e ↦ record {
          place = 0;
          file = f;
          counted = omega (arith, e.0);
          found = refl;
          keyed = e.1;
          episode = (episode_test _ floor f.size).0 y;
        }
      ]
    ]

eligible_from-Member :
    (floor i k n : ℕ) (f : FileSlot) (files : List FileSlot)
    → n ≡ i + k
    → file_at k files ≡ some f
    → IsEpisode floor f
    → Member n (natural_key f.path) (eligible_from floor i files)
unfolding eligible_from file_at
eligible_from-Member floor i k n f [] c e h = absurd (none≢some e)
eligible_from-Member floor i zero n f (g ∷ files) c e (v, l) =
    let same : g ≡ f = some-injective e in
    let y : is_video f.path && leb floor f.size ≡ true = (episode_test _ floor f.size).1 (v, l) in
    rw (same, y) (inl (omega (arith, c), refl))
eligible_from-Member floor i (suc k) n f (g ∷ files) c e h =
    let further = eligible_from-Member floor (suc i) k n f files (omega (arith, c)) e h in
    elim (Bool-cases (is_video g.path && leb floor g.size)) [
      | inl y ↦ rw y (inr further)
      | inr z ↦ rw z further
    ]

eligible_from-Distinct :
    (floor i : ℕ) (files : List FileSlot) → Distinct (eligible_from floor i files)
unfolding eligible_from
eligible_from-Distinct floor i [] = tt
eligible_from-Distinct floor i (f ∷ files) =
    let rest = eligible_from-Distinct floor (suc i) files in
    elim (Bool-cases (is_video f.path && leb floor f.size)) [
      | inr n ↦ rw n rest
      | inl y ↦ rw y (
        λ key m.
            (let e = eligible_from-Entry floor (suc i) i key files m in
              absurd (omega (arith, e.counted))),
        rest,
      )
    ]

-- The files of two indices, and that no episode stands between them in the natural order.
pub record Follows (files : List FileSlot) (i j : ℕ) (this : FileSlot) : Type 0 where
  pub next : FileSlot
  pub apart : i ≢ j
  pub is_next : file_at j files ≡ some next
  pub this_episode : IsEpisode (max min_video_bytes (this.size / 4)) this
  pub next_episode : IsEpisode (max min_video_bytes (this.size / 4)) next
  pub ordered : less_key (natural_key next.path) (natural_key this.path) ≡ false
  pub none_between :
      (k : ℕ) (f : FileSlot)
      → file_at k files ≡ some f
      → IsEpisode (max min_video_bytes (this.size / 4)) f
      → (less_key (natural_key this.path) (natural_key f.path) ≡ false)
        ⊎ (less_key (natural_key f.path) (natural_key next.path) ≡ false)

Entry-file :
    {floor k : ℕ} {key : Split} {files : List FileSlot}
    → Entry floor 0 k key files
    → (f : FileSlot) × (file_at k files ≡ some f) × (key ≡ natural_key f.path) × IsEpisode floor f
Entry-file {floor} {k} {key} {files} e = (
  e.file,
  let same : k ≡ e.place = omega (arith, e.counted) in rw same (e.found),
  e.keyed,
  e.episode,
)

Adjacent-Follows :
    (files : List FileSlot) (i j : ℕ) (this : FileSlot)
    → file_at i files ≡ some this
    → Adjacent i j (sort (eligible_from (max min_video_bytes (this.size / 4)) 0 files))
    → Follows files i j this
Adjacent-Follows files i j this e a =
    let floor = max min_video_bytes (this.size / 4) in
    let entries = eligible_from floor 0 files in
    let of = λ (k : ℕ) (key : Split) (m : Member k key (sort entries)).
      Entry-file (eligible_from-Entry floor 0 k key files ((sort-Member k key entries).0 m)) in
    let (f, f_at, f_key, f_episode) = of i a.this a.has_this in
    let (g, g_at, g_key, g_episode) = of j a.next a.has_next in
    let same : f ≡ this = some-injective (sym f_at ∙ e) in
    let this_key : a.this ≡ natural_key this.path = f_key ∙ ap (λ x. natural_key x.path) same in
    record {
      next = g;
      apart = a.apart;
      is_next = g_at;
      this_episode = subst (λ x. IsEpisode floor x) same f_episode;
      next_episode = g_episode;
      ordered = rw (sym g_key, sym this_key) a.ordered;
      none_between = λ k x at episode.
          (let m =
              (sort-Member k (natural_key x.path) entries).1
                (eligible_from-Member floor 0 k k x files (omega arith) at episode) in
            rw (sym g_key, sym this_key) (a.none_between k (natural_key x.path) m));
    }

-- The file that is given for a file is another video, large enough beside it to be an episode, and
-- follows it in the natural order: it is not less, and no such video stands between the two.
pub next_video_index-Follows :
    (files : List FileSlot) (current j : ℕ) (this : FileSlot)
    → file_at current files ≡ some this
    → next_video_index files current ≡ some j
    → Follows files current j this
unfolding next_video_index next_of
next_video_index-Follows files current j this at e =
    let entries = eligible_from (max min_video_bytes (this.size / 4)) 0 files in
    Adjacent-Follows files current j this at (
      behind_current-Adjacent current j (sort entries) (sort-Sorted entries)
        (sort-Distinct entries (eligible_from-Distinct _ 0 files)) (rw at at e))
