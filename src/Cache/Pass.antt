-- ===== src/Cache/Pass.antt =====
-- `evict_once` of src/stremiosrv/cache.py: one pass over the cache directory.
pub mod Safety
use stremio_libtorrent_serve.Base.{
  ℕ, ◌+◌, ◌-◌, Bool, true, false, not, ◌&&◌, List, [], ◌∷◌, ◌++◌, Option, none, some, String,
  string_key, Dict, lookup, insert, contains, keep, map, if◌then◌else◌, leb, lower,
}
use Prim.Native.String
use stremio_libtorrent_serve.Cache.Eviction.{Item, total_size, select_evictions}

-- The top-level entries that are never evicted.
abbrev pub protected_names : List String
protected_names =
    "certificates.pem" ∷ "httpsCert.json" ∷ "server-settings.json" ∷ ".server-settings.json.swp"
    ∷ "stremio-cache" ∷ "transcode" ∷ ".resume" ∷ "pins.json" ∷ "labels.json" ∷ "wanted.json"
    ∷ "library-ui.json" ∷ ".evictor-owner" ∷ []

-- `scan_cache`: what the directory holds, less the protected names.
unfoldable pub scan_cache : List Item → List Item
scan_cache root = keep (λ i. not (contains i.name protected_names)) root

-- An entry of pins.json; a missing field is the empty text.
pub record Pin : Type 0 where
  pub info_hash : String
  pub name : String

-- What the pass asks of the engine, each answer taken once.
pub record Engine : Type 0 where
  pub recent_names : List String
  pub pinned_names : List String
  pub name_to_hash : Dict String String

abbrev pub no_engine : Engine
no_engine = record { recent_names = []; pinned_names = []; name_to_hash = [] }

unfoldable pub is_text : String → Bool
is_text String.[] = false
is_text (String.◌∷◌ c s) = true

unfoldable pub names : List Item → List String
names [] = []
names (i ∷ items) = i.name ∷ names items

-- Entries modified within the grace period.
unfoldable pub recent : ℕ → ℕ → List Item → List String
recent now grace items = names (keep (λ i. leb (now - i.mtime) grace) items)

unfoldable pub pin_names : List Pin → List String
pin_names [] = []
pin_names (p ∷ pins) = let rest = pin_names pins in if is_text p.name then p.name ∷ rest else rest

unfoldable pub pin_hashes : List Pin → List String
pin_hashes [] = []
pin_hashes (p ∷ pins) =
    let rest = pin_hashes pins in if is_text p.info_hash then lower p.info_hash ∷ rest else rest

-- `{str(h).lower(): n for n, h in index.items() if h}`: a later name of a hash wins.
unfoldable pub by_hash : Dict String String → Dict String String → Dict String String
by_hash [] acc = acc
by_hash ((n, h) ∷ index) acc = by_hash index (if is_text h then insert (lower h) n acc else acc)

-- The values that the mapping has for the keys.
unfoldable pub found : Dict String String → List String → List String
found mapping [] = []
found mapping (k ∷ keys) =
    let rest = found mapping keys in elim (lookup k mapping) [ none ↦ rest | some v ↦ v ∷ rest ]

-- `f".{ih}.parts"`
unfoldable pub partfile : String → String
partfile ih = String.◌++◌ "." (String.◌++◌ ih ".parts")

unfoldable pub partfiles : List String → List String
partfiles [] = []
partfiles (ih ∷ hashes) =
    let rest = partfiles hashes in if is_text ih then partfile ih ∷ rest else rest

-- Names that a pass protects for the sake of their torrents, before their partfiles.
unfoldable pub kept_names : ℕ → ℕ → Engine → List Pin → Dict String String → List Item → List String
kept_names now grace engine pins index items =
    recent now grace items
    ++ (engine.recent_names
        ++ (engine.pinned_names ++ (pin_names pins ++ found (by_hash index []) (pin_hashes pins))))

unfoldable pub in_use : ℕ → ℕ → Engine → List Pin → Dict String String → List Item → List String
in_use now grace engine pins index items =
    let kept = kept_names now grace engine pins index items in
    kept ++ partfiles (pin_hashes pins ++ found engine.name_to_hash kept)

pub record Report : Type 0 where
  pub before : ℕ
  pub after : ℕ
  pub deleted : List Item

-- Everything that a victim's removal takes away: its entry and its partfile.
unfoldable pub removed_names : Engine → List Item → List String
removed_names engine [] = []
removed_names engine (v ∷ victims) =
    let rest = removed_names engine victims in
    v.name ∷ (elim (lookup v.name engine.name_to_hash) [
      | none ↦ rest
      | some ih ↦ if is_text ih then partfile ih ∷ rest else rest
    ])

unfoldable pub victims_of :
    ℕ → ℕ → ℕ → ℕ → Engine → List Pin → Dict String String → List Item → List Item
victims_of budget target now grace engine pins index root =
    select_evictions budget target (in_use now grace engine pins index (scan_cache root))
      (scan_cache root)

-- The directory after the pass, and its report.
unfoldable pub evict_once :
    ℕ → ℕ → ℕ → ℕ → Engine → List Pin → Dict String String → List Item → List Item × Report
evict_once budget target now grace engine pins index root =
    let victims = victims_of budget target now grace engine pins index root in
    (
      keep (λ i. not (contains i.name (removed_names engine victims))) root,
      record {
        before = total_size (scan_cache root);
        after = total_size (scan_cache root) - total_size victims;
        deleted = victims;
      },
    )
