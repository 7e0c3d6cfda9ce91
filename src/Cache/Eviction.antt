-- ===== src/Cache/Eviction.antt =====
-- `select_evictions` of src/stremiosrv/cache.py: which entries go when the cache is over budget.
pub mod Order
pub mod Choice
use stremio_libtorrent_serve.Base.{
  ℕ, ◌+◌, ◌-◌, Bool, true, false, not, List, [], ◌∷◌, String, string_key, contains, keep,
  if◌then◌else◌, leb, ltb,
}

-- A top-level entry of the cache directory, as `scan_cache` lists it.
pub record Item : Type 0 where
  pub name : String
  pub size : ℕ
  pub mtime : ℕ

unfoldable pub total_size : List Item → ℕ
total_size [] = 0
total_size (i ∷ items) = i.size + total_size items

-- `sorted(..., key=mtime)`: stable, so an entry goes before those that are not older.
unfoldable pub place : Item → List Item → List Item
place i [] = i ∷ []
place i (j ∷ items) = if leb i.mtime j.mtime then i ∷ j ∷ items else j ∷ place i items

unfoldable pub sort_by_mtime : List Item → List Item
sort_by_mtime [] = []
sort_by_mtime (i ∷ items) = place i (sort_by_mtime items)

-- The loop of `select_evictions`, with what is still over the target as the number left.
unfoldable pub take_until : ℕ → ℕ → List Item → ℕ → List Item
take_until total target [] freed = []
take_until total target (i ∷ items) freed =
    let rest = take_until total target items (freed + i.size) in
    if leb (total - freed) target then [] else i ∷ rest

abbrev pub candidates : List String → List Item → List Item
candidates in_use items = sort_by_mtime (keep (λ i. not (contains i.name in_use)) items)

-- `target` is `int(budget * target_ratio)`.
unfoldable pub select_evictions : ℕ → ℕ → List String → List Item → List Item
select_evictions budget target in_use items =
    if leb (total_size items) budget
    then []
    else take_until (total_size items) target (candidates in_use items) 0
