-- ===== src/Library/Listing/Numbering.antt =====
-- Which file of the torrent each entry of a listing is.
use stremio_libtorrent_serve.Base.{
  ℕ, zero, suc, ◌+◌, ◌<◌, ◌≡◌, ◌≢◌, refl, sym, ap, ◌∙◌, Bool, true, false, List, [], ◌∷◌, Option,
  none, some, arith, ◌==◌, if◌then◌else◌, codes, ℤ,
}
use stremio_libtorrent_serve.Library.Bencode.{Bytes, Items, Fields, list, dict, no_items, item}
use stremio_libtorrent_serve.Library.Listing.{
  TorrentFile, Listing, Entry, invalid, hidden, shown, get_field, entry_of, add_entry, list_files,
  count_items, listing_of, info_listing, parse_info,
}

-- The file that a listing has under an index.
unfoldable pub file_at : ℕ → List TorrentFile → Option (List Bytes × ℤ)
file_at i [] = none
file_at i (f ∷ fs) = if f.index == i then some (f.parts, f.size) else file_at i fs

abbrev pub content : Entry → Option (List Bytes × ℤ)
content invalid = none
content hidden = none
content (shown ps n) = some (ps, n)

-- The file that stands at a position of the info dictionary's list, if it is one to show.
unfoldable pub content_at : ℕ → Items → Option (List Bytes × ℤ)
content_at i no_items = none
content_at zero (item v xs) = content (entry_of v)
content_at (suc i) (item v xs) = content_at i xs

-- What an entry adds to the answers of a listing.
abbrev placed : Entry → Bool → Option (List Bytes × ℤ) → Option (List Bytes × ℤ)
placed (shown ps n) true rest = some (ps, n)
placed (shown ps n) false rest = rest
placed invalid b rest = rest
placed hidden b rest = rest

file_at-add_entry :
    (i : ℕ) (e : Entry) (rest : Option (List TorrentFile)) {fs : List TorrentFile}
    → add_entry i e rest ≡ some fs
    → (gs : List TorrentFile) × (rest ≡ some gs)
      × ((k : ℕ) → file_at k fs ≡ placed e (i == k) (file_at k gs))
      × (e ≢ invalid)
unfolding add_entry file_at
file_at-add_entry i invalid rest h = cc
file_at-add_entry i hidden rest {fs} h = (fs, h, λ k. refl, λ x. cc)
file_at-add_entry i (shown ps n) none h = cc
file_at-add_entry i (shown ps n) (some gs) h = (gs, refl, λ k. ground arith, λ x. cc)

placed_other :
    (e : Entry) (i k : ℕ) (rest : Option (List Bytes × ℤ)) → i ≢ k → placed e (i == k) rest ≡ rest
placed_other (shown ps n) i k rest h = ground arith
placed_other invalid i k rest h = refl
placed_other hidden i k rest h = refl

placed_here :
    (e : Entry) (i : ℕ) (rest : Option (List Bytes × ℤ))
    → rest ≡ none
    → placed e (i == i + 0) rest ≡ content e
placed_here (shown ps n) i rest h = ground arith
placed_here invalid i rest h = h
placed_here hidden i rest h = h

listing_inv :
    (n : ℕ) (o : Option (List TorrentFile)) (l : Listing)
    → listing_of n o ≡ some l
    → (fs : List TorrentFile) × (o ≡ some fs) × ((l.count ≡ n) × (l.files ≡ fs))
unfolding listing_of
listing_inv n none l h = cc
listing_inv n (some fs) l h = (fs, refl, (ground arith, ground arith))

-- No index comes before that of the first item.
file_at-before :
    (i k : ℕ) (xs : Items) (fs : List TorrentFile)
    → k < i
    → list_files i xs ≡ some fs
    → file_at k fs ≡ none
unfolding list_files file_at
file_at-before i k no_items fs l h = ground arith
file_at-before i k (item v xs) fs l h =
    let (gs, r, e, _) = file_at-add_entry i (entry_of v) (list_files (suc i) xs) h in
    let below = file_at-before (suc i) k xs gs (omega arith) r in
    e k ∙ placed_other (entry_of v) i k (file_at k gs) (omega arith) ∙ below

file_at-list_files :
    (i k : ℕ) (xs : Items) (fs : List TorrentFile)
    → list_files i xs ≡ some fs
    → file_at (i + k) fs ≡ content_at k xs
unfolding list_files file_at content_at
file_at-list_files i k no_items fs h = ground arith
file_at-list_files i zero (item v xs) fs h =
    let (gs, r, e, valid) = file_at-add_entry i (entry_of v) (list_files (suc i) xs) h in
    let below = file_at-before (suc i) (i + 0) xs gs (omega arith) r in
    e (i + 0) ∙ placed_here (entry_of v) i (file_at (i + 0) gs) below
file_at-list_files i (suc k) (item v xs) fs h =
    let (gs, r, e, valid) = file_at-add_entry i (entry_of v) (list_files (suc i) xs) h in
    let next = file_at-list_files (suc i) k xs gs r in
    e (i + suc k)
    ∙ placed_other (entry_of v) i (i + suc k) (file_at (i + suc k) gs) (omega arith)
    ∙ ap (λ j. file_at j gs) (omega arith)
    ∙ next

-- A listing of several files counts all that the torrent has, hidden ones included, and has under
-- each index exactly the file at that position of the torrent's own list, if it is one to show.
pub parse_info-numbered :
    (info : Fields) (xs : Items) (l : Listing) (i : ℕ)
    → get_field (codes "files") info ≡ some (list xs)
    → parse_info (dict info) ≡ some l
    → (l.count ≡ count_items xs) × (file_at i l.files ≡ content_at i xs)
unfolding parse_info info_listing
parse_info-numbered info xs l i f h =
    let h' : listing_of (count_items xs) (list_files 0 xs) ≡ some l =
      ap (λ o. info_listing o info) (sym f) ∙ h in
    let (fs, r, e) = listing_inv (count_items xs) (list_files 0 xs) l h' in
    let shift : i ≡ 0 + i = omega arith in
    (e.0, ap (file_at i) e.1 ∙ ap (λ k. file_at k fs) shift ∙ file_at-list_files 0 i xs fs r)
