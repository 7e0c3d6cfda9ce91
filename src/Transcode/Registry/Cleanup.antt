-- ===== src/Transcode/Registry/Cleanup.antt =====
-- What the clean-up after the lock changes: the process and the directories, never the maps.
use stremio_libtorrent_serve.Base.{
  ℕ, ◌≡◌, refl, ◌≢◌, false, some, List, [], ◌∷◌, String, string_key, number_key, discard, arith,
  contains-discard, ap, ◌∙◌,
}
use stremio_libtorrent_serve.Transcode.Registry.State.{State, is_running}
use stremio_libtorrent_serve.Transcode.Registry.Ending.{
  Detached, end_process, remove_workload_dir, remove_job_dir, remove_job_dirs, clean_up,
}
use stremio_libtorrent_serve.Transcode.Registry.Directories.{
  Result, ok, fail, job_dir, workload_dir,
}

-- Removing directories leaves everything else as it is.
pub record SameBut (s t : State) : Type 0 where
  pub jobs : t.jobs ≡ s.jobs
  pub job_workload : t.job_workload ≡ s.job_workload
  pub workload_jobs : t.workload_jobs ≡ s.workload_jobs
  pub seen : t.seen ≡ s.seen
  pub running : t.running ≡ s.running

pub remove_job_dir-SameBut : (job : String) (s : State) → SameBut s (remove_job_dir job s)
unfolding remove_job_dir
remove_job_dir-SameBut job s = go (job_dir s.resolves job)
  where
    go :
        (r : Result String)
        → SameBut s (elim r [ ok d ↦ record s { dirs = discard d s.dirs } | fail _ ↦ s ])
    go (ok d) = record {
      jobs = refl;
      job_workload = refl;
      workload_jobs = refl;
      seen = refl;
      running = refl;
    }
    go (fail f) = record {
      jobs = refl;
      job_workload = refl;
      workload_jobs = refl;
      seen = refl;
      running = refl;
    }

pub remove_job_dirs-SameBut : (jobs : List String) (s : State) → SameBut s (remove_job_dirs jobs s)
unfolding remove_job_dirs
remove_job_dirs-SameBut [] s = record {
  jobs = refl;
  job_workload = refl;
  workload_jobs = refl;
  seen = refl;
  running = refl;
}
remove_job_dirs-SameBut (job ∷ jobs) s =
    let a = remove_job_dir-SameBut job s in
    let b = remove_job_dirs-SameBut jobs (remove_job_dir job s) in
    record {
      jobs = b.jobs ∙ a.jobs;
      job_workload = b.job_workload ∙ a.job_workload;
      workload_jobs = b.workload_jobs ∙ a.workload_jobs;
      seen = b.seen ∙ a.seen;
      running = b.running ∙ a.running;
    }

pub remove_workload_dir-SameBut : (key : String) (s : State) → SameBut s (remove_workload_dir key s)
unfolding remove_workload_dir
remove_workload_dir-SameBut key s = go (workload_dir key)
  where
    go :
        (r : Result String)
        → SameBut s (elim r [ ok d ↦ record s { dirs = discard d s.dirs } | fail _ ↦ s ])
    go (ok d) = record {
      jobs = refl;
      job_workload = refl;
      workload_jobs = refl;
      seen = refl;
      running = refl;
    }
    go (fail f) = record {
      jobs = refl;
      job_workload = refl;
      workload_jobs = refl;
      seen = refl;
      running = refl;
    }

pub end_process-ends : (p : ℕ) (s : State) → is_running (end_process (some p) s) p ≡ false
unfolding end_process is_running
end_process-ends p s = ground (arith, contains-discard p p s.running)

pub end_process-others :
    (p q : ℕ) (s : State) → q ≢ p → is_running (end_process (some p) s) q ≡ is_running s q
unfolding end_process is_running
end_process-others p q s ne = ground (arith, contains-discard p q s.running)

pub clean_up-SameBut : (d : Detached) (s : State) → SameBut (end_process d.process s) (clean_up d s)
unfolding clean_up
clean_up-SameBut d s =
    let w = remove_workload_dir d.key (end_process d.process s) in
    let a = remove_workload_dir-SameBut d.key (end_process d.process s) in
    let b = remove_job_dirs-SameBut d.aliases w in
    record {
      jobs = b.jobs ∙ a.jobs;
      job_workload = b.job_workload ∙ a.job_workload;
      workload_jobs = b.workload_jobs ∙ a.workload_jobs;
      seen = b.seen ∙ a.seen;
      running = b.running ∙ a.running;
    }

-- The maps stay, the process ends, and no other process does.
pub record Cleaned (p : ℕ) (s t : State) : Type 0 where
  pub jobs : t.jobs ≡ s.jobs
  pub job_workload : t.job_workload ≡ s.job_workload
  pub workload_jobs : t.workload_jobs ≡ s.workload_jobs
  pub seen : t.seen ≡ s.seen
  pub ended : is_running t p ≡ false
  pub others : (q : ℕ) → q ≢ p → is_running t q ≡ is_running s q

pub clean_up-Cleaned :
    (d : Detached) (p : ℕ) (s : State) → d.process ≡ some p → Cleaned p s (clean_up d s)
unfolding end_process
clean_up-Cleaned d p s e =
    let c = clean_up-SameBut d s in
    let run : (clean_up d s).running ≡ (end_process (some p) s).running =
      c.running ∙ ap (λ o. (end_process o s).running) e in
    record {
      jobs = c.jobs ∙ ap (λ o. (end_process o s).jobs) e;
      job_workload = c.job_workload ∙ ap (λ o. (end_process o s).job_workload) e;
      workload_jobs = c.workload_jobs ∙ ap (λ o. (end_process o s).workload_jobs) e;
      seen = c.seen ∙ ap (λ o. (end_process o s).seen) e;
      ended = unfold is_running in (rw run (end_process-ends p s));
      others = λ q ne. unfold is_running in (rw run (end_process-others p q s ne));
    }
