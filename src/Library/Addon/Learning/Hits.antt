-- ===== src/Library/Addon/Learning/Hits.antt =====
-- Which torrents a report labels.
use stremio_libtorrent_serve.Base.{
  ◌≤◌, ◌≡◌, refl, inl, inr, Bool, true, false, not, ◌&&◌, List, [], ◌∷◌, Option, none, some, arith,
  length, keep, Bool-cases, if_some_inv, is_empty,
}
use stremio_libtorrent_serve.Pins.Names.{Text, lower}
use stremio_libtorrent_serve.Library.Addon.Files.{File, Label, Entry, is_title}
use stremio_libtorrent_serve.Library.Addon.Streams.{can_mean, matching_files}
use stremio_libtorrent_serve.Library.Addon.Playing.{Among}
use stremio_libtorrent_serve.Library.Addon.Offers.{Listed}
use stremio_libtorrent_serve.Library.Addon.Learning.{
  Played, label_if_matched, has_label, learn_label, Hits, add_hit, gather, unless_unclear,
  learn_labels,
}

-- A hit on an entry that is a title with no label, one of whose files the report can mean.
pub record IsHit (p : Played) (es : List Entry) (hash : Text) (l : Label) : Type 0 where
  pub entry : Entry
  pub listed : Listed entry es
  pub title : is_title entry ≡ true
  pub unlabelled : has_label entry ≡ false
  pub hash_of : hash ≡ lower entry.info_hash
  pub file : File
  pub among : Among file entry.files
  pub meant : can_mean p.size p.name file ≡ true
  pub video : (l.meta_id ≡ p.meta_id) × (l.season ≡ p.season) × (l.episode ≡ p.episode)

abbrev pub AllHits : Played → List Entry → Hits → Type 0
AllHits p es [] = Unit
AllHits p es ((hash, l) ∷ hits) = IsHit p es hash l × AllHits p es hits

keep-head :
    (q : File → Bool) (fs : List File) (f : File) (gs : List File)
    → keep q fs ≡ f ∷ gs
    → Among f fs × (q f ≡ true)
unfolding keep
keep-head q [] f gs h = cc
keep-head q (g ∷ fs) f gs h = elim (Bool-cases (q g)) [
  | inl e ↦ (inl (ground (arith, e, h)), ground (arith, e, h))
  | inr e ↦ let (m, t) = keep-head q fs f gs (rw e at h) in (inr m, t)
]

label_if_matched-head :
    (p : Played) (fs : List File) (l : Label)
    → label_if_matched p fs ≡ some l
    → (f : File) × (gs : List File) × (fs ≡ f ∷ gs)
      × ((l.meta_id ≡ p.meta_id) × (l.season ≡ p.season) × (l.episode ≡ p.episode))
unfolding label_if_matched
label_if_matched-head p [] l h = cc
label_if_matched-head p (f ∷ fs) l h = (f, fs, refl, (ground arith, ground arith, ground arith))

learn_label-IsHit :
    (p : Played) (e : Entry) (es : List Entry) (l : Label)
    → learn_label p e ≡ some l
    → IsHit p (e ∷ es) (lower e.info_hash) l
unfolding learn_label matching_files
learn_label-IsHit p e es l h =
    let matched = matching_files e.files p.size p.name in
    let (test, k) = if_some_inv (is_title e && not (has_label e)) (label_if_matched p matched) h in
    let (f, gs, first, video) = label_if_matched-head p matched l k in
    let (m, t) = keep-head (can_mean p.size p.name) e.files f gs first in
    record {
      entry = e;
      listed = inl refl;
      title = ground arith;
      unlabelled = ground arith;
      hash_of = refl;
      file = f;
      among = m;
      meant = t;
      video = video;
    }

AllHits-later :
    (p : Played) (e : Entry) (es : List Entry) (hits : Hits)
    → AllHits p es hits
    → AllHits p (e ∷ es) hits
AllHits-later p e es [] all = tt
AllHits-later p e es ((hash, l) ∷ hits) (h, all) = (
  record {
    entry = h.entry;
    listed = inr h.listed;
    title = h.title;
    unlabelled = h.unlabelled;
    hash_of = h.hash_of;
    file = h.file;
    among = h.among;
    meant = h.meant;
    video = h.video;
  },
  AllHits-later p e es hits all,
)

add_hit-AllHits :
    (p : Played) (e : Entry) (es : List Entry) (o : Option Label) (hits : Hits)
    → ((l : Label) → o ≡ some l → IsHit p (e ∷ es) (lower e.info_hash) l)
    → AllHits p (e ∷ es) hits
    → AllHits p (e ∷ es) (add_hit e o hits)
unfolding add_hit
add_hit-AllHits p e es none hits k all = all
add_hit-AllHits p e es (some l) hits k all = (k l refl, all)

gather-AllHits : (p : Played) (es : List Entry) → AllHits p es (gather (learn_label p) es)
unfolding gather
gather-AllHits p [] = tt
gather-AllHits p (e ∷ es) =
    add_hit-AllHits p e es (learn_label p e) (gather (learn_label p) es) (learn_label-IsHit p e es)
      (AllHits-later p e es (gather (learn_label p) es) (gather-AllHits p es))

unless_unclear-AllHits :
    (p : Played) (es : List Entry) (hits : Hits)
    → AllHits p es hits
    → AllHits p es (unless_unclear p.name hits)
      × (is_empty p.name ≡ true → length (unless_unclear p.name hits) ≤ 1)
unfolding unless_unclear
unless_unclear-AllHits p es [] all = (tt, λ e. omega arith)
unless_unclear-AllHits p es (a ∷ []) all = (all, λ e. omega arith)
unless_unclear-AllHits p es (a ∷ b ∷ hits) all = elim (Bool-cases (is_empty p.name)) [
  | inl e ↦ rw e (tt, λ _. omega arith)
  | inr e ↦ rw e (all, λ t. cc)
]

-- Every label that a report teaches is of the reported video and of an entry that is a title, has
-- no label and has a file of the reported size, and of the reported name if there is one; without a
-- name, at most one torrent is labelled.
pub learn_labels-IsHit :
    (es : List Entry) (p : Played)
    → AllHits p es (learn_labels es (some p))
      × (is_empty p.name ≡ true → length (learn_labels es (some p)) ≤ 1)
unfolding learn_labels
learn_labels-IsHit es p =
    unless_unclear-AllHits p es (gather (learn_label p) es) (gather-AllHits p es)
