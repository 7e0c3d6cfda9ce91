-- ===== src/Transcode/Registry/Methods.antt =====
-- The public methods of `Converter`, each run without another thread between its parts.
use stremio_libtorrent_serve.Base.{
  ℕ, ◌+◌, ◌-◌, Bool, true, false, not, ◌&&◌, Option, none, some, List, [], ◌∷◌, ◌++◌, String,
  string_key, Dict, contains, discard, length, if◌then◌else◌, ltb,
}
use stremio_libtorrent_serve.Transcode.Registry.Directories.{
  unsafe, unresolvable, no_process, Result, ok, fail, ◌>>=◌, is_component, job_dir, workload_dir,
}
use stremio_libtorrent_serve.Transcode.Registry.State.{State, is_running, is_empty}
use stremio_libtorrent_serve.Transcode.Registry.Ensure.{ensure_locked, workload_for_job}
use stremio_libtorrent_serve.Transcode.Registry.Ending.{
  Detached, drop_workload, drop_if_orphaned, release, reap_locked, end_process, remove_workload_dir,
  remove_job_dir, remove_job_dirs, clean_up,
}

unfoldable pub stop_workload : String → State → State
stop_workload key s = clean_up (drop_workload key s).1 (drop_workload key s).0

unfoldable pub stop_workload_if_orphaned : String → State → State × Bool
stop_workload_if_orphaned key s = elim (drop_if_orphaned key s).1 [
  | none ↦ ((drop_if_orphaned key s).0, false)
  | some d ↦ (clean_up d (drop_if_orphaned key s).0, true)
]

-- The end of `ensure_job`, outside the lock.
unfoldable pub stop_orphan : Option String → State → State
stop_orphan none s = s
stop_orphan (some key) s = (stop_workload_if_orphaned key s).0

-- `ensure_job`, with the workload key already computed. An exception of `Popen` skips the end.
unfoldable pub ensure_job : String → String → ℕ → State → State × Result String
ensure_job job key now s = elim (job_dir s.resolves job) [
  | fail e ↦ (s, fail e)
  | ok _ ↦
      let b = ensure_locked job key now s in
      if b.started
      then (stop_orphan b.orphan b.state, workload_dir key)
      else (b.state, fail no_process)
]

unfoldable pub stop_released : Option String → State → State
stop_released none s = s
stop_released (some key) s = stop_workload key s

unfoldable pub stop : String → State → State × Result (Unit {0})
stop job s = elim (job_dir s.resolves job) [
  | fail e ↦ (s, fail e)
  | ok _ ↦ let (t, last) = release job s in (stop_released last (remove_job_dir job t), ok tt)
]

unfoldable pub clean_up_all : List Detached → State → State
clean_up_all [] s = s
clean_up_all (d ∷ ds) s = clean_up_all ds (clean_up d s)

-- `reaped.extend(aliases or [key])`
unfoldable pub reaped : List Detached → List String
reaped [] = []
reaped (d ∷ ds) = (if is_empty d.aliases then d.key ∷ [] else d.aliases) ++ reaped ds

unfoldable pub reap_idle : ℕ → ℕ → State → State × List String
reap_idle now idle_after s =
    let (t, ended) = reap_locked now idle_after s.jobs s in (clean_up_all ended t, reaped ended)

unfoldable pub count_running : State → Dict String ℕ → ℕ
count_running s [] = 0
count_running s ((key, p) ∷ jobs) = (if is_running s p then 1 else 0) + count_running s jobs

unfoldable pub active_count : State → ℕ
active_count s = count_running s s.jobs

unfoldable pub end_all : Dict String ℕ → State → State
end_all [] s = s
end_all ((key, p) ∷ jobs) s = end_all jobs (end_process (some p) s)

unfoldable pub remove_workload_dirs : Dict String ℕ → State → State
remove_workload_dirs [] s = s
remove_workload_dirs ((key, p) ∷ jobs) s = remove_workload_dirs jobs (remove_workload_dir key s)

unfoldable pub alias_names : Dict String String → List String
alias_names [] = []
alias_names ((job, key) ∷ jw) = job ∷ alias_names jw

unfoldable pub stop_all : State → State
stop_all s = remove_job_dirs (alias_names s.job_workload) (
    remove_workload_dirs s.jobs
      (end_all s.jobs (record s { jobs = []; job_workload = []; workload_jobs = []; seen = [] })))

-- What the file system answers for a name under `base`: no answer, no directory, or a
-- directory's time; and whether `rmtree` leaves it in place.
pub record Listed : Type 0 where
  pub name : String
  pub time : Option (Option ℕ)
  pub stays : Bool

unfoldable pub live_keys : State → Dict String ℕ → List String
live_keys s [] = []
live_keys s ((key, p) ∷ jobs) =
    let rest = live_keys s jobs in if is_running s p then key ∷ rest else rest

-- A directory that no live process owns and that is old enough.
unfoldable pub is_sweepable : List String → ℕ → ℕ → Listed → Bool
is_sweepable live now max_age l = if contains l.name live then false else elim l.time [
  | none ↦ false
  | some none ↦ false
  | some (some t) ↦ not (ltb (now - t) max_age)
]

unfoldable pub swept : List String → ℕ → ℕ → List Listed → List String
swept live now max_age [] = []
swept live now max_age (l ∷ names) =
    let rest = swept live now max_age names in
    if is_sweepable live now max_age l && not l.stays then l.name ∷ rest else rest

unfoldable pub discard_all : List String → List String → List String
discard_all [] dirs = dirs
discard_all (d ∷ ds) dirs = discard_all ds (discard d dirs)

unfoldable pub sweep : ℕ → ℕ → List Listed → State → State × ℕ
sweep now max_age names s =
    let removed = swept (live_keys s s.jobs) now max_age names in
    (record s { dirs = discard_all removed s.dirs }, length removed)

-- `job_file`: the directory and the file's name in it.
unfoldable pub dir_for_job : String → State → Result String
dir_for_job job s = elim (workload_for_job job s) [
  | none ↦ job_dir s.resolves job
  | some key ↦ workload_dir key
]

-- `resolves` answers for a path inside the directory `d`.
unfoldable pub job_file :
    (String → String → Option Bool) → String → String → State → Result (String × String)
job_file resolves job filename s =
    if is_component filename
    then (do
      _ ← job_dir s.resolves job
      d ← dir_for_job job s
      elim (resolves d filename) [
        | none ↦ fail unresolvable
        | some false ↦ fail unsafe
        | some true ↦ ok (d, filename)
      ])
    else fail unsafe
