-- ===== src/Torrent/Policy.antt =====
-- The decisions of src/stremiosrv/torrent/engine.py: bandwidth between torrents, the end of seeding, and
-- the order of pieces.
pub mod Bandwidth
pub mod Seeding
pub mod Hysteresis
use stremio_libtorrent_serve.Base.{
  ℕ, ◌+◌, ◌-◌, ◌*◌, Bool, true, false, not, ◌&&◌, ◌||◌, List, [], ◌∷◌, Option, none, some, ltb, leb,
  if◌then◌else◌,
}

-- A limit of 0 is none.
unfoldable pub idle_download_limit : Bool → Bool → ℕ → ℕ
idle_download_limit this_active any_active idle_limit =
    if ltb 0 idle_limit && (any_active && not this_active) then idle_limit else 0

-- `any(h.is_active() for h in handles)`, over the numbers of open streams.
unfoldable pub any_active : List ℕ → Bool
any_active [] = false
any_active (n ∷ handles) = ltb 0 n || any_active handles

unfoldable pub limits : Bool → ℕ → List ℕ → List ℕ
limits any idle_limit [] = []
limits any idle_limit (n ∷ handles) =
    idle_download_limit (ltb 0 n) any idle_limit ∷ limits any idle_limit handles

-- The limits that `_apply_bandwidth_policy` sets on the handles with those numbers of open streams,
-- if it sets any.
unfoldable pub apply_bandwidth_policy : ℕ → List ℕ → Option (List ℕ)
apply_bandwidth_policy idle_limit handles =
    if leb idle_limit 0 then none else some (limits (any_active handles) idle_limit handles)

-- `_seed_on_complete` and `_max_seed_minutes`.
pub record SeedRules : Type 0 where
  pub seed_on_complete : Bool
  pub max_seed_minutes : ℕ

unfoldable pub past_completion : SeedRules → ℕ → Option ℕ → Bool
past_completion rules now none = false
past_completion rules now (some completed_at) =
    if not rules.seed_on_complete
    then true
    else ltb 0 rules.max_seed_minutes && leb (rules.max_seed_minutes * 60) (now - completed_at)

unfoldable pub should_stop_seeding : SeedRules → Bool → Bool → Option ℕ → ℕ → Bool
should_stop_seeding rules pinned finished completed_at now =
    if pinned || not finished then false else past_completion rules now completed_at

unfoldable pub should_resume_on_open : Bool → Bool → Bool
should_resume_on_open paused finished = paused && not finished

-- What the seed policy keeps of a torrent.
pub record Seed : Type 0 where
  pub pinned : Bool
  pub completed_at : Option ℕ
  pub paused : Bool

unfoldable pub completed : ℕ → Bool → Option ℕ → Option ℕ
completed now false at = none
completed now true none = some now
completed now true (some t) = some t

-- One round of `_enforce_seed_policy` for a torrent with metadata that is, or is not, finished.
unfoldable pub enforce : SeedRules → ℕ → Bool → Seed → Seed
enforce rules now finished s =
    let at = completed now finished s.completed_at in
    record s {
      completed_at = at;
      paused = s.paused || should_stop_seeding rules s.pinned finished at now;
    }

-- The rounds that the policy skips because it would never stop anything.
unfoldable pub enforce_seed_policy : SeedRules → ℕ → Bool → Bool → Seed → Seed
enforce_seed_policy rules now has_metadata finished s =
    if rules.seed_on_complete && leb rules.max_seed_minutes 0
    then s
    else if has_metadata
    then enforce rules now finished s
    else s

-- `low` and `high` are the marks, as the source has them; a negative mark is no natural number.
unfoldable pub adaptive_sequential : ℕ → Bool → ℕ → ℕ → Bool
adaptive_sequential buffer currently_sequential low high =
    if leb high 0 || leb high low
    then true
    else if leb high buffer
    then false
    else if leb buffer low
    then true
    else currently_sequential
