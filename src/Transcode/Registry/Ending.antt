-- ===== src/Transcode/Registry/Ending.antt =====
-- How workloads end: `stop`, `_stop_workload`, `_stop_workload_if_orphaned` and `reap_idle` under
-- the lock, and the clean-up after it.
use stremio_libtorrent_serve.Base.{
  ℕ, ◌+◌, ite, Bool, not, ◌&&◌, Option, none, some, List, [], ◌∷◌, String, string_key, number_key,
  Dict, lookup, erase, discard, if◌then◌else◌, ltb,
}
use stremio_libtorrent_serve.Transcode.Registry.Directories.{ok, fail, job_dir, workload_dir}
use stremio_libtorrent_serve.Transcode.Registry.State.{
  State, is_running, is_empty, set_owners, drop_alias, owners_of,
}

-- A process that the code has taken out of the registry, with the aliases it had.
pub record Detached : Type 0 where
  pub key : String
  pub process : Option ℕ
  pub aliases : List String

-- `for job_id in aliases: if self._job_workload.get(job_id) == key: pop`
unfoldable pub drop_aliases : String → List String → Dict String String → Dict String String
drop_aliases key [] jw = jw
drop_aliases key (job ∷ rest) jw =
    drop_aliases key rest
      (elim (lookup job jw) [ none ↦ jw | some k ↦ ite (string_key.same k key) (erase job jw) jw ])

-- A workload leaves all four maps: the locked part of `_stop_workload`, and of one round of
-- `reap_idle`.
unfoldable pub drop_workload : String → State → State × Detached
drop_workload key s = (
  record s {
    jobs = erase key s.jobs;
    seen = erase key s.seen;
    workload_jobs = erase key s.workload_jobs;
    job_workload = drop_aliases key (owners_of key s) s.job_workload;
  },
  record { key = key; process = lookup key s.jobs; aliases = owners_of key s },
)

-- The aliases whose workload is `key`.
unfoldable pub aliases_of : String → Dict String String → List String
aliases_of key [] = []
aliases_of key ((job, k) ∷ jw) =
    let rest = aliases_of key jw in ite (string_key.same k key) (job ∷ rest) rest

unfoldable pub without : String → Dict String String → Dict String String
without key [] = []
without key ((job, k) ∷ jw) =
    let rest = without key jw in ite (string_key.same k key) rest ((job, k) ∷ rest)

-- The locked part of `_stop_workload_if_orphaned`: `none` where an alias has taken it over.
unfoldable pub drop_if_orphaned : String → State → State × Option Detached
drop_if_orphaned key s =
    if is_empty (owners_of key s)
    then (
      record s {
        jobs = erase key s.jobs;
        seen = erase key s.seen;
        workload_jobs = erase key s.workload_jobs;
        job_workload = without key s.job_workload;
      },
      some (record {
        key = key;
        process = lookup key s.jobs;
        aliases = aliases_of key s.job_workload;
      }),
    )
    else (s, none)

-- The locked part of `stop`: the key is returned if its last owner has left.
unfoldable pub release : String → State → State × Option String
release job s = elim (lookup job s.job_workload) [
  | none ↦ (s, none)
  | some key ↦ elim (lookup key s.workload_jobs) [
    | none ↦ (drop_alias job s, none)
    | some owners ↦ (
      set_owners key (discard job owners) (drop_alias job s),
      if is_empty (discard job owners) then some key else none,
    )
  ]
]

-- `self._seen.get(key, 0.0)`
unfoldable pub last_seen : String → State → ℕ
last_seen key s = elim (lookup key s.seen) [ none ↦ 0 | some t ↦ t ]

-- A workload that `reap_idle` ends: its process runs and no client was seen for `idle_after`.
unfoldable pub is_idle : ℕ → ℕ → State → String × ℕ → Bool
is_idle now idle_after s (key, p) = is_running s p && not (ltb now (last_seen key s + idle_after))

-- The locked loop of `reap_idle`, over a snapshot of the jobs.
unfoldable pub reap_locked : ℕ → ℕ → Dict String ℕ → State → State × List Detached
reap_locked now idle_after [] s = (s, [])
reap_locked now idle_after ((key, p) ∷ items) s =
    let idle = is_idle now idle_after s (key, p) in
    let (t, ended) =
      reap_locked now idle_after items (if idle then (drop_workload key s).0 else s) in
    (t, if idle then (drop_workload key s).1 ∷ ended else ended)

-- `_end`: afterwards the process does not run, by `terminate` or by `kill`.
unfoldable pub end_process : Option ℕ → State → State
end_process none s = s
end_process (some p) s = record s { running = discard p s.running }

unfoldable pub remove_workload_dir : String → State → State
remove_workload_dir key s = elim (workload_dir key) [
  | ok d ↦ record s { dirs = discard d s.dirs }
  | fail _ ↦ s
]

unfoldable pub remove_job_dir : String → State → State
remove_job_dir job s = elim (job_dir s.resolves job) [
  | ok d ↦ record s { dirs = discard d s.dirs }
  | fail _ ↦ s
]

unfoldable pub remove_job_dirs : List String → State → State
remove_job_dirs [] s = s
remove_job_dirs (job ∷ jobs) s = remove_job_dirs jobs (remove_job_dir job s)

-- What follows the lock for one detached workload.
unfoldable pub clean_up : Detached → State → State
clean_up d s = remove_job_dirs d.aliases (remove_workload_dir d.key (end_process d.process s))
