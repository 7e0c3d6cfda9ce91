-- ===== src/Cache/Tests.antt =====
-- Runs of the cache's passes, and their theorems at concrete directories.
use stremio_libtorrent_serve.Base.{
  ◌<◌, ◌≡◌, refl, List, [], ◌∷◌, string_key, str_discrete, lookup, insert, erase, keep, contains,
  lower, ends_with, arith,
}
use stremio_libtorrent_serve.Cache.Eviction.{
  Item, total_size, place, sort_by_mtime, take_until, select_evictions,
}
use stremio_libtorrent_serve.Cache.Eviction.Choice.{Chosen, select_evictions-Chosen}
use stremio_libtorrent_serve.Cache.Pass.{
  scan_cache, Pin, Engine, is_text, names, recent, pin_names, pin_hashes, by_hash, found, partfile,
  partfiles, kept_names, in_use, removed_names, victims_of, evict_once,
}
use stremio_libtorrent_serve.Cache.Owner.{
  Server, write_owner, is_rival, claim_root, evictor_may_run, attempts,
}
use stremio_libtorrent_serve.Cache.Resume.{
  Root, indexed, claimed_hashes, stem, has_record, prune_name_index, verdict, is_removed, count,
  counts, surviving, sweep_enabled, sweep_resume,
}
use stremio_libtorrent_serve.Cache.Resume.Sparing.{Retired, sweep_resume-Retired}

program : Unit {0}
unfolding lookup insert erase keep contains lower ends_with str_discrete total_size place
    sort_by_mtime take_until select_evictions scan_cache is_text names recent pin_names pin_hashes
    by_hash found partfile partfiles kept_names in_use removed_names victims_of evict_once
    write_owner is_rival claim_root evictor_may_run attempts indexed claimed_hashes stem has_record
    prune_name_index verdict is_removed count counts surviving sweep_enabled sweep_resume
program = tt

abbrev items : List Item
items =
    record { name = "new"; size = 40; mtime = 900 }
    ∷ record { name = "old"; size = 50; mtime = 100 }
    ∷ record { name = "kept"; size = 30; mtime = 50 }
    ∷ record { name = "mid"; size = 20; mtime = 200 }
    ∷ []

abbrev root : List Item
root = record { name = "pins.json"; size = 1; mtime = 1 } ∷ items

abbrev pins : List Pin
pins = record { info_hash = "AB"; name = "" } ∷ []

abbrev engine : Engine
engine = record { recent_names = "mid" ∷ []; pinned_names = []; name_to_hash = [] }

-- The pin without a name protects its torrent by the name index.
evicts_old :
    names (evict_once 100 90 1000 300 engine pins (("kept", "ab") ∷ []) root).1.deleted ≡ "old" ∷ []
unfolding program
evicts_old = refl

keeps_rest :
    names (evict_once 100 90 1000 300 engine pins (("kept", "ab") ∷ []) root).0
    ≡ "pins.json" ∷ "new" ∷ "kept" ∷ "mid" ∷ []
unfolding program
keeps_rest = refl

over : 100 < total_size items
unfolding total_size
over = omega arith

select_evictions-Chosen_example :
    Chosen 100 90 ("kept" ∷ []) items (select_evictions 100 90 ("kept" ∷ []) items)
select_evictions-Chosen_example = select_evictions-Chosen 100 90 ("kept" ∷ []) items over

abbrev here : Server
here = record { token = "t1"; host = "h1" }

abbrev there : Server
there = record { token = "t2"; host = "h2" }

-- A record that the index claims, one that nothing claims, and a write that was never finished.
abbrev resume : Root
resume = record {
  on_disk = "film" ∷ [];
  entries =
      record { name = "aa.fastresume"; mtime = 0 }
      ∷ record { name = "bb.fastresume"; mtime = 0 }
      ∷ record { name = "cc.fastresume.tmp"; mtime = 0 }
      ∷ [];
  index = ("film", "AA") ∷ ("gone", "bb") ∷ [];
  pinned = [];
  wanted = [];
}

swept :
    ((sweep_resume 1 90000 resume).root.index ≡ ("film", "AA") ∷ [])
    × ((sweep_resume 1 90000 resume).counts.removed ≡ 1)
unfolding program
swept = (refl, refl)

sweep_resume-Retired_example : Retired 1 90000 resume (sweep_resume 1 90000 resume)
sweep_resume-Retired_example = sweep_resume-Retired 1 90000 resume (omega arith)
