-- ===== src/Cache/Pass/Safety.antt =====
-- What a pass of `evict_once` may not take: the protected names, what was written or served lately,
-- and whatever a pin stands for.
use stremio_libtorrent_serve.Base.{
  ℕ, ◌+◌, ◌<◌, ◌≡◌, true, false, List, [], some, String, string_key, Dict, lookup, contains,
}
use stremio_libtorrent_serve.Cache.Eviction.{Item}
use stremio_libtorrent_serve.Cache.Pass.{
  protected_names, Pin, Engine, is_text, pin_names, pin_hashes, by_hash, partfile,
}

-- An entry that the pass is free to take.
pub record Free (now grace : ℕ) (engine : Engine) (pins : List Pin) (index : Dict String String)
    (v : Item) : Type 0 where
  pub unprotected : contains v.name protected_names ≡ false
  pub aged : grace + v.mtime < now
  pub unserved : contains v.name engine.recent_names ≡ false
  pub unpinned : contains v.name engine.pinned_names ≡ false
  pub unkept : contains v.name (pin_names pins) ≡ false
  pub unindexed :
      (h : String)
      → contains h (pin_hashes pins) ≡ true
      → ¬ (lookup h (by_hash index []) ≡ some v.name)
  pub no_partfile :
      (h : String)
      → contains h (pin_hashes pins) ≡ true
      → is_text h ≡ true
      → ¬ (v.name ≡ partfile h)

-- What is not among the recent names was modified before the grace period.
abbrev Aged : ℕ → ℕ → List String → Item → Type 0
Aged now grace fresh i = contains i.name fresh ≡ false → grace + i.mtime < now
