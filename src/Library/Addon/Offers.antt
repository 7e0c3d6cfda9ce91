-- ===== src/Library/Addon/Offers.antt =====
-- What a stream that is offered plays.
use stremio_libtorrent_serve.Base.{
  ℕ, ◌≡◌, refl, sym, ap, ◌∙◌, ◌⊎◌, true, List, [], ◌∷◌, Option, some, keep, if_some_inv,
}
use stremio_libtorrent_serve.Pins.Names.{Text, lower}
use stremio_libtorrent_serve.Pins.Choosing.{same_text}
use stremio_libtorrent_serve.Library.Addon.Files.{
  File, Label, Entry, is_complete, is_title, is_addressable, offered,
}
use stremio_libtorrent_serve.Library.Addon.Streams.{
  matching_files, only_offered, recorded_index, label_matches, chosen_by, chosen_index, Stream,
}
use stremio_libtorrent_serve.Library.Addon.Playing.{CanPlay}

abbrev pub Listed : Entry → List Entry → Type 0
Listed e [] = ⊥
Listed e (d ∷ ds) = (e ≡ d) ⊎ Listed e ds

-- A stream of an entry that is a title with a label for this video's id, and that plays a whole
-- file of it.
pub record IsOffer (es : List Entry) (base : Text) (s : Stream) : Type 0 where
  pub entry : Entry
  pub listed : Listed entry es
  pub title : is_title entry ≡ true
  pub label : Label
  pub labelled : entry.label ≡ some label
  pub same_video : same_text label.meta_id base ≡ true
  pub hash : s.info_hash ≡ lower entry.info_hash
  pub plays : CanPlay s.index entry

abbrev pub Each : (Stream → Type 0) → List Stream → Type 0
Each P [] = Unit
Each P (s ∷ ss) = P s × Each P ss

only_offered-inv :
    (fs : List File) (i : ℕ)
    → only_offered fs ≡ some i
    → (f : File) × (fs ≡ f ∷ []) × (f.index ≡ some i) × (is_complete f ≡ true)
unfolding only_offered offered
only_offered-inv [] i h = cc
only_offered-inv (f ∷ []) i h =
    let (b, k) = if_some_inv (is_complete f) f.index h in (f, refl, k, b)
only_offered-inv (f ∷ g ∷ fs) i h = cc

-- For the video that a label names, where the label records a file: a file is offered only if one
-- file with an index, and no other, has the recorded size and name, and all its bytes are there.
pub chosen_index-recorded :
    (e : Entry) (l : Label) (base : Text) (season episode : Option ℕ) (name : Text) (size i : ℕ)
    → label_matches l base season episode ≡ true
    → l.file ≡ some (name, size)
    → chosen_index e l base season episode ≡ some i
    → (f : File) × (keep is_addressable (matching_files e.files size name) ≡ f ∷ [])
      × (f.index ≡ some i)
      × (is_complete f ≡ true)
unfolding chosen_index
chosen_index-recorded e l base season episode name size i own rec h =
    let found = keep is_addressable (matching_files e.files size name) in
    let k : recorded_index e name size ≡ some i =
      ap (λ b. chosen_by b (some (name, size)) e season episode) (sym own)
      ∙ ap (λ o. chosen_by (label_matches l base season episode) o e season episode) (sym rec)
      ∙ h in
    only_offered-inv found i (unfold recorded_index in k)
