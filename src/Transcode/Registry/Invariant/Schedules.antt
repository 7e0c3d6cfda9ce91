-- ===== src/Transcode/Registry/Invariant/Schedules.antt =====
-- Any interleaving of the clients' requests, the collector, the clean-ups and the exits of
-- processes. Each step is one locked part, or one thing done outside the lock.
use stremio_libtorrent_serve.Base.{
  ℕ, refl, Bool, Option, List, [], String, number_key, lookup, discard,
}
use stremio_libtorrent_serve.Transcode.Registry.State.{State}
use stremio_libtorrent_serve.Transcode.Registry.Ensure.{ensure_locked, touch}
use stremio_libtorrent_serve.Transcode.Registry.Ending.{
  Detached, drop_workload, drop_if_orphaned, release, reap_locked, clean_up, remove_job_dir,
}
use stremio_libtorrent_serve.Transcode.Registry.Invariant.{Inv, host-Inv}
use stremio_libtorrent_serve.Transcode.Registry.Invariant.Ensuring.{ensure_locked-Inv}
use stremio_libtorrent_serve.Transcode.Registry.Invariant.Ending.{
  drop_workload-Inv, drop_if_orphaned-Inv, release-Inv, touch-Inv, reap_locked-Inv, clean_up-Inv,
  remove_job_dir-Inv,
}

pub data Step (s : State) : State → Type 0 where
  ensures : (job key : String) (now : ℕ) → Step s (ensure_locked job key now s).state
  touches : (job : String) (now : ℕ) → Step s (touch job now s)
  releases : (job : String) → Step s (release job s).0
  removes_job_dir : (job : String) → Step s (remove_job_dir job s)
  drops : (key : String) → Step s (drop_workload key s).0
  drops_orphan : (key : String) → Step s (drop_if_orphaned key s).0
  reaps : (now idle_after : ℕ) → Step s (reap_locked now idle_after s.jobs s).0
  cleans_up : (d : Detached) → Step s (clean_up d s)
  -- An encoder exits by itself.
  exits : (p : ℕ) → Step s (record s { running = discard p s.running })

pub data Reach (s : State) : State → Type 0 where
  here : Reach s s
  next : {t u : State} → Reach s t → Step t u → Reach s u

-- The registry when the server starts, on any host.
abbrev pub initial : List ℕ → ℕ → Bool → List String → (String → Option Bool) → State
initial running spawned can_spawn dirs resolves = record {
  jobs = [];
  job_workload = [];
  workload_jobs = [];
  seen = [];
  running = running;
  spawned = spawned;
  can_spawn = can_spawn;
  dirs = dirs;
  resolves = resolves;
}

initial-Inv :
    (running : List ℕ) (spawned : ℕ) (can_spawn : Bool) (dirs : List String)
    (resolves : String → Option Bool)
    → Inv (initial running spawned can_spawn dirs resolves)
unfolding lookup
initial-Inv running spawned can_spawn dirs resolves = record {
  honest = λ k j o h m. cc;
  owned = λ k o h. cc;
  timed = λ k h. refl;
  untimed = λ k h. refl;
  numbered = λ k p h. absurd cc;
  alone = λ k k' p h h'. absurd cc;
  distinct = tt;
}

Step-Inv : {s t : State} → Step s t → Inv s → Inv t
Step-Inv {s} (ensures job key now) v = ensure_locked-Inv job key now s v
Step-Inv {s} (touches job now) v = touch-Inv s v job now
Step-Inv {s} (releases job) v = release-Inv s v job
Step-Inv {s} (removes_job_dir job) v = remove_job_dir-Inv job s v
Step-Inv {s} (drops key) v = drop_workload-Inv s v key
Step-Inv {s} (drops_orphan key) v = drop_if_orphaned-Inv s v key
Step-Inv {s} (reaps now idle_after) v = reap_locked-Inv now idle_after s.jobs s v
Step-Inv {s} (cleans_up d) v = clean_up-Inv d s v
Step-Inv {s} (exits p) v = host-Inv s v (discard p s.running) s.dirs

Reach-Inv : {s t : State} → Reach s t → Inv s → Inv t
Reach-Inv here v = v
Reach-Inv (next r st) v = Step-Inv st (Reach-Inv r v)

pub initial-Reach-Inv :
    (running : List ℕ) (spawned : ℕ) (can_spawn : Bool) (dirs : List String)
    (resolves : String → Option Bool) (t : State)
    → Reach (initial running spawned can_spawn dirs resolves) t
    → Inv t
initial-Reach-Inv running spawned can_spawn dirs resolves t r =
    Reach-Inv r (initial-Inv running spawned can_spawn dirs resolves)
