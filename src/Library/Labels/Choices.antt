-- ===== src/Library/Labels/Choices.antt =====
-- The owner's choice of a label, and the file that a label records, through the reports of players.
use stremio_libtorrent_serve.Base.{
  ℕ, ◌≡◌, refl, sym, ap, subst, ◌∙◌, ◌⊎◌, inl, inr, true, false, not, true≢false, some-injective,
  ◌||◌, Option, none, some, String, string_key, str_discrete, Dict, lookup, insert,
  lookup-insert_same, lookup-insert_other, lower, arith, Bool-cases,
}
use stremio_libtorrent_serve.Library.Labels.{
  FileValue, file_record, Label, Stored, Labels, page_fields, video_fields, selected, put, Report,
  has_time, is_true, learn, same_video, has_file, add_found, add_valid, add_file, touch_found,
  touch_last_source,
}

-- A report of a player, of any torrent.
pub data Step : Labels → Labels → Type 0 where
  learning :
      (now : ℕ) (info_hash : String) (report : Report) (labels : Labels)
      → Step labels (learn now info_hash report labels).0
  adding :
      (info_hash : String) (report : Report) (labels : Labels)
      → Step labels (add_file info_hash report labels).0
  touching :
      (now : ℕ) (info_hash : String) (report : Report) (labels : Labels)
      → Step labels (touch_last_source now info_hash report labels).0

pub data Steps : Labels → Labels → Type 0 where
  done : (labels : Labels) → Steps labels labels
  more : (a b c : Labels) → Step a b → Steps b c → Steps a c

-- The label has the fields and the time, and the file if that was one.
abbrev pub Keeps : Label → Label → Type 0
Keeps l m =
    (m.fields ≡ l.fields)
    × (m.added_at ≡ l.added_at)
    × ((has_file l.file ≡ false) ⊎ (m.file ≡ l.file))

abbrev pub Holds : String → Label → Labels → Type 0
Holds ih l labels = (m : Label) × (lookup ih labels ≡ some (Stored.entry m)) × Keeps l m

label_of : Label → Stored → Label
label_of l (Stored.entry m) = m
label_of l (Stored.other b) = l

label-injective : (l m : Label) → Stored.entry l ≡ Stored.entry m → l ≡ m
unfolding label_of
label-injective l m e = ap (label_of l) e

-- The file of the third label, where the first has it from the second.
files :
    (l o m n : Label)
    → m ≡ o
    → (has_file m.file ≡ false) ⊎ (n.file ≡ m.file)
    → (has_file l.file ≡ false) ⊎ (o.file ≡ l.file)
    → (has_file l.file ≡ false) ⊎ (n.file ≡ l.file)
files l o m n same file (inl h) = inl h
files l o m n same (inl g) (inr h) =
    inl (sym (ap has_file h) ∙ (sym (ap (λ (x : Label). has_file x.file) same) ∙ g))
files l o m n same (inr g) (inr h) = inr (g ∙ (ap (λ (x : Label). x.file) same ∙ h))

Holds-insert :
    (ih k : String) (l m n : Label) (labels : Labels)
    → lookup k labels ≡ some (Stored.entry m)
    → (has_file m.file ≡ false) ⊎ (n.file ≡ m.file)
    → n.fields ≡ m.fields
    → n.added_at ≡ m.added_at
    → Holds ih l labels
    → Holds ih l (insert k (Stored.entry n) labels)
Holds-insert ih k l m n labels e file fields time held =
    let o = held.0 in
    let f = held.1 in
    let keeps = held.2 in
    elim (str_discrete ih k) [
      | yes p ↦
          let same : m ≡ o =
            label-injective m o
              (some-injective (sym e ∙ subst (λ x. lookup x labels ≡ some (Stored.entry o)) p f)) in
          (
            n,
            subst (λ x. lookup x (insert k (Stored.entry n) labels) ≡ some (Stored.entry n)) (sym p)
                (lookup-insert_same k (Stored.entry n) labels),
            (
              fields ∙ (ap (λ (x : Label). x.fields) same ∙ keeps.0),
              time ∙ (ap (λ (x : Label). x.added_at) same ∙ keeps.1),
              files l o m n same file keeps.2,
            ),
          )
      | no p ↦ (o, lookup-insert_other k ih (Stored.entry n) labels p ∙ f, keeps)
    ]

add_found-Holds :
    (ih k : String) (l : Label) (o : Option Stored) (f : String × ℕ) (report : Report)
    (labels : Labels)
    → lookup k labels ≡ o
    → Holds ih l labels
    → Holds ih l (add_found k o f report labels).0
unfolding add_found
add_found-Holds ih k l none f report labels e h = h
add_found-Holds ih k l (some (Stored.other b)) f report labels e h = h
add_found-Holds ih k l (some (Stored.entry m)) f report labels e h =
    elim (Bool-cases (has_file m.file || not (same_video video_fields m.fields report.fields))) [
      | inl c ↦ rw c h
      | inr c ↦ rw c (Holds-insert ih k l m _ labels e (inl (ground (arith, c))) refl refl h)
    ]

add_valid-Holds :
    (ih k : String) (l : Label) (o : Option (String × ℕ)) (report : Report) (labels : Labels)
    → Holds ih l labels
    → Holds ih l (add_valid k o report labels).0
unfolding add_valid
add_valid-Holds ih k l none report labels h = h
add_valid-Holds ih k l (some f) report labels h =
    add_found-Holds ih k l (lookup k labels) f report labels refl h

touch_found-Holds :
    (now : ℕ) (ih k : String) (l : Label) (o : Option Stored) (report : Report) (labels : Labels)
    → lookup k labels ≡ o
    → Holds ih l labels
    → Holds ih l (touch_found now k o report labels).0
unfolding touch_found
touch_found-Holds now ih k l none report labels e h = h
touch_found-Holds now ih k l (some (Stored.other b)) report labels e h = h
touch_found-Holds now ih k l (some (Stored.entry m)) report labels e h =
    elim (Bool-cases (same_video video_fields m.fields report.fields)) [
      | inl c ↦ rw c (Holds-insert ih k l m _ labels e (inr refl) refl refl h)
      | inr c ↦ rw c h
    ]

label_true : (m : Label) → has_time m.added_at ≡ true → is_true (some (Stored.entry m)) ≡ true
unfolding is_true
label_true m h = ground (arith, h)

-- A torrent that has a label is not learned again.
learn-Holds :
    (now : ℕ) (ih info_hash : String) (report : Report) (l : Label) (labels : Labels)
    → has_time l.added_at ≡ true
    → Holds ih l labels
    → Holds ih l (learn now info_hash report labels).0
unfolding learn
learn-Holds now ih info_hash report l labels t h =
    elim (Bool-cases (is_true (lookup (lower info_hash) labels))) [
      | inl c ↦ rw c h
      | inr c ↦
          let other : ¬ (ih ≡ lower info_hash) = λ p. true≢false (
            sym (label_true h.0 (ap has_time h.2.1 ∙ t))
            ∙ (ap is_true (sym h.1) ∙ (ap (λ x. is_true (lookup x labels)) p ∙ c))) in
          rw c (h.0, lookup-insert_other (lower info_hash) ih _ labels other ∙ h.1, h.2)
    ]

Step-Holds :
    (ih : String) (l : Label) (a b : Labels)
    → Step a b
    → has_time l.added_at ≡ true
    → Holds ih l a
    → Holds ih l b
unfolding add_file touch_last_source
Step-Holds ih l a b (Step.learning now info_hash report labels) t h =
    learn-Holds now ih info_hash report l a t h
Step-Holds ih l a b (Step.adding info_hash report labels) t h =
    add_valid-Holds ih (lower info_hash) l (file_record report.file) report a h
Step-Holds ih l a b (Step.touching now info_hash report labels) t h =
    elim (Bool-cases (has_file report.file)) [
      | inl c ↦ rw c (
          touch_found-Holds now ih (lower info_hash) l (lookup (lower info_hash) a) report a refl h)
      | inr c ↦ rw c h
    ]

Steps-Holds :
    (ih : String) (l : Label) (a b : Labels)
    → Steps a b
    → has_time l.added_at ≡ true
    → Holds ih l a
    → Holds ih l b
Steps-Holds ih l a b (Steps.done labels) t h = h
Steps-Holds ih l a c (Steps.more a' b c' step steps) t h =
    Steps-Holds ih l b c steps t (Step-Holds ih l a b step t h)

-- A label that the page put stands through any reports of players, of any torrents: it keeps the
-- fields that the page sent, of those it may send, and its time.
pub put-kept :
    (now : ℕ) (info_hash : String) (sent : Dict String String) (labels later : Labels)
    → Steps (put now info_hash sent labels) later
    → (m : Label) × (lookup (lower info_hash) later ≡ some (Stored.entry m))
      × (m.fields ≡ selected page_fields sent)
      × (m.added_at ≡ some now)
unfolding put has_time
put-kept now info_hash sent labels later steps =
    let l : Label = record {
      fields = selected page_fields sent;
      file = FileValue.no_file;
      added_at = some now;
      last_source_at = none;
    } in
    let h =
      Steps-Holds (lower info_hash) l _ later steps refl
        (l, lookup-insert_same (lower info_hash) (Stored.entry l) labels, (refl, refl, inr refl)) in
    (h.0, h.1, h.2.0, h.2.1)

kept_file :
    (l m : Label)
    → has_file l.file ≡ true
    → (has_file l.file ≡ false) ⊎ (m.file ≡ l.file)
    → m.file ≡ l.file
kept_file l m f (inl g) = absurd (true≢false (sym f ∙ g))
kept_file l m f (inr g) = g

-- A label that has a file keeps it through any reports: no other file is recorded in its place.
pub file-kept :
    (ih : String) (l : Label) (labels later : Labels)
    → lookup ih labels ≡ some (Stored.entry l)
    → has_time l.added_at ≡ true
    → has_file l.file ≡ true
    → Steps labels later
    → (m : Label) × (lookup ih later ≡ some (Stored.entry m)) × (m.file ≡ l.file)
file-kept ih l labels later e t f steps =
    let h = Steps-Holds ih l labels later steps t (l, e, (refl, refl, inr refl)) in
    (h.0, h.1, kept_file l h.0 f h.2.2)
