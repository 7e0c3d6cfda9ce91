-- ===== src/Transcode/Registry/Ensure.antt =====
-- `ensure_job` under its lock: which encoder a client's job gets. Also `touch`.
use stremio_libtorrent_serve.Base.{
  ℕ, suc, ite, Bool, true, false, Option, none, some, [], ◌∷◌, String, string_key, number_key,
  lookup, insert, add, discard, if◌then◌else◌,
}
use stremio_libtorrent_serve.Transcode.Registry.State.{
  State, is_running, live_at, forget, is_empty, set_owners, drop_alias, owners_of,
}

-- The alias leaves `old`; the key is returned if nobody owns it any more.
unfoldable pub detach : String → String → State → State × Option String
detach job old s = elim (lookup old s.workload_jobs) [
  | none ↦ (drop_alias job s, none)
  | some owners ↦ (
    drop_alias job (set_owners old (discard job owners) s),
    if is_empty (discard job owners) then some old else none,
  )
]

unfoldable pub attach : String → String → ℕ → State → State
attach job key now s = record s {
  job_workload = insert job key s.job_workload;
  workload_jobs = insert key (add job (owners_of key s)) s.workload_jobs;
  seen = insert key now s.seen;
}

-- A fresh directory and a new process; the owners of an earlier process are replaced.
unfoldable pub launch : String → String → ℕ → State → State
launch job key now s = record s {
  jobs = insert key s.spawned s.jobs;
  job_workload = insert job key s.job_workload;
  workload_jobs = insert key (job ∷ []) s.workload_jobs;
  seen = insert key now s.seen;
  running = s.spawned ∷ s.running;
  spawned = suc s.spawned;
}

unfoldable pub fresh_dir : String → State → State
fresh_dir key s = record s { dirs = add key (discard key s.dirs) }

-- `Popen` raises where no process can be started; the maps stay as they are by then.
unfoldable pub start_if : Bool → String → String → ℕ → State → State × Bool
start_if true job key now s = (launch job key now (fresh_dir key s), true)
start_if false job key now s = (fresh_dir key s, false)

unfoldable pub start : String → String → ℕ → State → State × Bool
start job key now s = start_if s.can_spawn job key now s

-- Lines 440 to 493 of `ensure_job`: share the live encoder, or start one.
unfoldable pub acquire : String → String → ℕ → State → State × Bool
acquire job key now s = elim (lookup key s.jobs) [
  | none ↦ start job key now s
  | some p ↦
      if is_running s p then (attach job key now s, true) else start job key now (forget key s)
]

-- Lines 410 to 438: leave the previous workload. The orphaned key is the second part.
unfoldable pub rebind : String → String → State → State × Option String
rebind job key s = elim (lookup job s.job_workload) [
  | none ↦ (s, none)
  | some old ↦ ite (string_key.same old key) (forget key s, none) (detach job old s)
]

pub record Bound : Type 0 where
  pub state : State
  pub orphan : Option String
  pub started : Bool

-- An alias that asks again for its live workload only refreshes the time.
unfoldable pub is_refresh : String → String → State → Bool
is_refresh job key s = elim (lookup job s.job_workload) [
  | none ↦ false
  | some old ↦ ite (string_key.same old key) (live_at s key) false
]

-- All that `ensure_job` does under the lock.
unfoldable pub ensure_locked : String → String → ℕ → State → Bound
ensure_locked job key now s =
    if is_refresh job key s
    then record { state = record s { seen = insert key now s.seen }; orphan = none; started = true }
    else (let (s', orphan) = rebind job key s in
        let (t, started) = acquire job key now s' in
        record { state = t; orphan = orphan; started = started })

unfoldable pub workload_for_job : String → State → Option String
workload_for_job job s = lookup job s.job_workload

unfoldable pub touch : String → ℕ → State → State
touch job now s = elim (lookup job s.job_workload) [
  | none ↦ s
  | some key ↦ elim (lookup key s.jobs) [
    | none ↦ s
    | some p ↦ record s { seen = insert key now s.seen }
  ]
]
