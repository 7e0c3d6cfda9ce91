-- ===== src/Library/Listing/Inside.antt =====
-- Where the files of a listing stand on disk.
use stremio_libtorrent_serve.Base.{
  ℕ, suc, ◌≡◌, refl, ap, subst, ◌∙◌, inl, inr, true, false, ◌||◌, List, [], ◌∷◌, ◌++◌, Option, none,
  some, arith, ◌==◌, if◌then◌else◌, Bool-cases, some-injective, codes, has_code, ℤ,
}
use stremio_libtorrent_serve.Library.Bencode.{
  Bytes, Value, Items, Fields, int, list, dict, no_items, item, same_bytes,
}
use stremio_libtorrent_serve.Library.Listing.{
  TorrentFile, Listing, Entry, invalid, hidden, shown, get_field, is_safe, all_safe, has_no_content,
  with_parts, parts_of, path_value, with_length, entry_of, add_entry, list_files, count_items,
  listing_of, single_file, info_listing, parse_info,
}

-- A directory by its path, the innermost name first.
abbrev pub Place : Type 0
Place = List Bytes

-- The text of a path below a directory.
unfoldable pub path_text : List Bytes → Bytes
path_text [] = []
path_text (p ∷ ps) = b'/' ∷ (p ++ path_text ps)

-- What a path is cut into, at either separator: the first name and the others.
unfoldable pub cut : Bytes → Bytes × List Bytes
cut [] = ([], [])
cut (c ∷ s) = let (p, ps) = cut s in if c == b'/' || c == 92 then ([], p ∷ ps) else (c ∷ p, ps)

unfoldable pub parent : Place → Place
parent [] = []
parent (d ∷ place) = place

-- How an operating system reads a name: none and `.` stay, `..` goes up.
unfoldable pub enter : Bytes → Place → Place
unfolding same_bytes parent
enter [] place = place
enter (c ∷ s) place =
    if same_bytes (c ∷ s) (codes ".")
    then place
    else if same_bytes (c ∷ s) (codes "..")
    then parent place
    else (c ∷ s) ∷ place

unfoldable pub enter_all : List Bytes → Place → Place
unfolding enter
enter_all [] place = place
enter_all (p ∷ ps) place = enter_all ps (enter p place)

-- Where a path leads from a directory.
unfoldable pub resolve : Bytes → Place → Place
unfolding cut enter_all
resolve path place = let (p, ps) = cut path in enter_all (p ∷ ps) place

-- The place below a directory under these names.
unfoldable pub below : List Bytes → Place → Place
below [] place = place
below (p ∷ ps) place = below ps (p ∷ place)

cut-append :
    (p rest : Bytes) (ps : List Bytes)
    → has_code b'/' p ≡ false
    → has_code 92 p ≡ false
    → cut rest ≡ ([], ps)
    → cut (p ++ rest) ≡ (p, ps)
unfolding cut has_code
cut-append [] rest ps a b h = h
cut-append (c ∷ p) rest ps a b h = ground (arith, cut-append p rest ps)

is_safe-plain : (p : Bytes) → is_safe p ≡ true → (has_code b'/' p ≡ false) × (has_code 92 p ≡ false)
unfolding is_safe
is_safe-plain [] h = cc
is_safe-plain (c ∷ p) h = ground arith

enter-safe : (p : Bytes) (place : Place) → is_safe p ≡ true → enter p place ≡ p ∷ place
unfolding is_safe enter
enter-safe [] place h = cc
enter-safe (c ∷ p) place h = ground arith

cut-path_text : (ps : List Bytes) → all_safe ps ≡ true → cut (path_text ps) ≡ ([], ps)
unfolding cut path_text all_safe
cut-path_text [] h = refl
cut-path_text (p ∷ ps) h =
    let safe : is_safe p ≡ true = ground arith in
    let others : all_safe ps ≡ true = ground arith in
    let (a, b) = is_safe-plain p safe in
    rw (cut-append p (path_text ps) ps a b (cut-path_text ps others))

enter_all-safe :
    (ps : List Bytes) (place : Place) → all_safe ps ≡ true → enter_all ps place ≡ below ps place
unfolding enter_all below all_safe
enter_all-safe [] place h = refl
enter_all-safe (p ∷ ps) place h =
    let safe : is_safe p ≡ true = ground arith in
    ap (enter_all ps) (enter-safe p place safe) ∙ enter_all-safe ps (p ∷ place) (ground arith)

resolve-safe :
    (ps : List Bytes) (place : Place)
    → all_safe ps ≡ true
    → resolve (path_text ps) place ≡ below ps place
unfolding resolve enter
resolve-safe ps place h = rw (cut-path_text ps h) (enter_all-safe ps place h)

-- Every file's path leads to the place under the file's own names.
abbrev pub Inside : Place → List TorrentFile → Type 0
Inside place [] = Unit
Inside place (f ∷ fs) = (resolve (path_text f.parts) place ≡ below f.parts place) × Inside place fs

with_parts-safe :
    (o : Option (List Bytes)) (n : ℤ) {ps : List Bytes} {m : ℤ}
    → with_parts o n ≡ shown ps m
    → all_safe ps ≡ true
unfolding with_parts
with_parts-safe none n h = cc
with_parts-safe (some qs) n h = ground arith

with_length-safe :
    (o : Option Value) (f : Fields) {ps : List Bytes} {m : ℤ}
    → with_length o f ≡ shown ps m
    → all_safe ps ≡ true
unfolding with_length
with_length-safe (some (int n)) f h =
    elim (Bool-cases (has_no_content (get_field (codes "attr") f))) [
      | inl e ↦ cc (rw e at h)
      | inr e ↦
          let path = path_value (get_field (codes "path.utf-8") f) (get_field (codes "path") f) in
          with_parts-safe (parts_of path) n (rw e at h)
    ]
with_length-safe none f h = cc
with_length-safe _ f h = cc

entry_of-safe : (v : Value) (ps : List Bytes) (m : ℤ) → entry_of v ≡ shown ps m → all_safe ps ≡ true
unfolding entry_of
entry_of-safe (dict f) ps m h = with_length-safe (get_field (codes "length") f) f h
entry_of-safe (int n) ps m h = cc
entry_of-safe _ ps m h = cc

add_entry-Inside :
    (place : Place) (i : ℕ) (e : Entry) (rest : Option (List TorrentFile)) {fs : List TorrentFile}
    → ((ps : List Bytes) (m : ℤ) → e ≡ shown ps m → all_safe ps ≡ true)
    → ((gs : List TorrentFile) → rest ≡ some gs → Inside place gs)
    → add_entry i e rest ≡ some fs
    → Inside place fs
unfolding add_entry
add_entry-Inside place i invalid rest s k h = cc
add_entry-Inside place i hidden rest {fs} s k h = k fs h
add_entry-Inside place i (shown ps n) none s k h = cc
add_entry-Inside place i (shown ps n) (some gs) s k h =
    subst (Inside place) (some-injective h) (resolve-safe ps place (s ps n refl), k gs refl)

list_files-Inside :
    (place : Place) (i : ℕ) (xs : Items) {fs : List TorrentFile}
    → list_files i xs ≡ some fs
    → Inside place fs
unfolding list_files
list_files-Inside place i no_items h = subst (Inside place) (some-injective h) tt
list_files-Inside place i (item v xs) h =
    add_entry-Inside place i (entry_of v) (list_files (suc i) xs) (entry_of-safe v)
      (λ gs r. list_files-Inside place (suc i) xs r) h

listing_of-Inside :
    (place : Place) (n : ℕ) (o : Option (List TorrentFile)) {l : Listing}
    → ((fs : List TorrentFile) → o ≡ some fs → Inside place fs)
    → listing_of n o ≡ some l
    → Inside place l.files
unfolding listing_of
listing_of-Inside place n none k h = cc
listing_of-Inside place n (some fs) k h =
    subst (λ m. Inside place m.files) (some-injective h) (k fs refl)

single_file-Inside :
    (place : Place) (o : Option Value) {l : Listing} → single_file o ≡ some l → Inside place l.files
unfolding single_file resolve path_text below enter
single_file-Inside place (some (int n)) h =
    subst (λ m. Inside place m.files) (some-injective h) (refl, tt)
single_file-Inside place none h = cc
single_file-Inside place _ h = cc

info_listing-Inside :
    (place : Place) (o : Option Value) (info : Fields) {l : Listing}
    → info_listing o info ≡ some l
    → Inside place l.files
unfolding info_listing
info_listing-Inside place (some (list xs)) info h =
    listing_of-Inside place (count_items xs) (list_files 0 xs)
      (λ fs r. list_files-Inside place 0 xs r) h
info_listing-Inside place none info h = single_file-Inside place _ h
info_listing-Inside place _ info h = single_file-Inside place _ h

-- Whatever an info dictionary has for paths, every file that is listed stands inside the torrent's
-- directory: its path, however read, leads to the place under the file's own names.
pub parse_info-Inside :
    (place : Place) (info : Value) (l : Listing) → parse_info info ≡ some l → Inside place l.files
unfolding parse_info
parse_info-Inside place (dict info) l h =
    info_listing-Inside place (get_field (codes "files") info) info h
parse_info-Inside place _ l h = cc
