-- ===== src/Transcode/Registry/State.antt =====
-- The state of `Converter` (src/stremiosrv/transcode/converter.py), and the host as it sees it.
use stremio_libtorrent_serve.Base.{
  ℕ, Bool, true, false, Option, none, some, List, [], ◌∷◌, String, string_key, number_key, Dict,
  lookup, insert, erase, contains, if◌then◌else◌,
}

-- The registry's four maps, and what it sees of the host: the processes that still run, the
-- number of the next one, whether one can be started, the directories under `base`, and the
-- answer of `Path.resolve` for a name there (`none` is an OSError).
pub record State : Type 0 where
  pub jobs : Dict String ℕ
  pub job_workload : Dict String String
  pub workload_jobs : Dict String (List String)
  pub seen : Dict String ℕ
  pub running : List ℕ
  pub spawned : ℕ
  pub can_spawn : Bool
  pub dirs : List String
  pub resolves : String → Option Bool

-- `proc.poll() is None`
unfoldable pub is_running : State → ℕ → Bool
is_running s p = contains p s.running

-- A registered process that still runs.
unfoldable pub live_at : State → String → Bool
live_at s key = elim (lookup key s.jobs) [ none ↦ false | some p ↦ is_running s p ]

unfoldable pub forget : String → State → State
forget key s = record s { jobs = erase key s.jobs; seen = erase key s.seen }

unfoldable pub is_empty {ℓ} : {A : Type ℓ} → List A → Bool
is_empty [] = true
is_empty (_ ∷ _) = false

unfoldable pub set_owners : String → List String → State → State
set_owners key owners s = record s {
  workload_jobs =
      if is_empty owners then erase key s.workload_jobs else insert key owners s.workload_jobs;
}

unfoldable pub drop_alias : String → State → State
drop_alias job s = record s { job_workload = erase job s.job_workload }

unfoldable pub owners_of : String → State → List String
owners_of key s = elim (lookup key s.workload_jobs) [ none ↦ [] | some owners ↦ owners ]
