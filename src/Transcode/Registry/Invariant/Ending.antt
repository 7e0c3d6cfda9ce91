-- ===== src/Transcode/Registry/Invariant/Ending.antt =====
-- The invariant of the registry through what ends a workload.
use stremio_libtorrent_serve.Base.{
  ℕ, ◌≡◌, ◌≢◌, inl, inr, Bool, true, false, Option, none, some, List, [], ◌∷◌, String, string_key,
  number_key, Dict, erase-IsDict, lookup, erase, discard, arith, lookup-insert, lookup-erase,
  Bool-cases, Option-cases, if◌then◌else◌,
}
use stremio_libtorrent_serve.Transcode.Registry.State.{
  State, is_empty, set_owners, drop_alias, owners_of,
}
use stremio_libtorrent_serve.Transcode.Registry.Ensure.{touch}
use stremio_libtorrent_serve.Transcode.Registry.Ending.{
  Detached, drop_aliases, drop_workload, without, drop_if_orphaned, release, is_idle, reap_locked,
  end_process, remove_workload_dir, remove_job_dir, remove_job_dirs, clean_up,
}
use stremio_libtorrent_serve.Transcode.Registry.Directories.{
  Result, ok, fail, workload_dir, job_dir,
}
use stremio_libtorrent_serve.Transcode.Registry.Invariant.{Inv, drop_alias-Inv, host-Inv}

-- An alias of another workload stays.
pub drop_aliases-other :
    (key q k : String) (aliases : List String) (jw : Dict String String)
    → lookup q jw ≡ some k
    → k ≢ key
    → lookup q (drop_aliases key aliases jw) ≡ some k
unfolding drop_aliases
drop_aliases-other key q k [] jw h ne = h
drop_aliases-other key q k (job ∷ aliases) jw h ne =
    drop_aliases-other key q k aliases _ (ground (arith, lookup-erase job q jw)) ne

pub without-other :
    (key q k : String) (jw : Dict String String)
    → lookup q jw ≡ some k
    → k ≢ key
    → lookup q (without key jw) ≡ some k
unfolding without lookup
without-other key q k [] h ne = h
without-other key q k ((job, w) ∷ jw) h ne = ground (arith, without-other key q k jw)

module _ (s : State) (v : Inv s) where
  -- `key` leaves the maps, and with it aliases that are its own.
  removed-Inv :
      (key : String) (jw : Dict String String)
      → ((q k : String) → lookup q s.job_workload ≡ some k → k ≢ key → lookup q jw ≡ some k)
      → Inv (record s {
        jobs = erase key s.jobs;
        seen = erase key s.seen;
        workload_jobs = erase key s.workload_jobs;
        job_workload = jw;
      })
  removed-Inv key jw other = record {
    honest = λ k j o own m.
        ground (arith, lookup-erase key k s.workload_jobs, v.honest k j o, other j k);
    owned = λ k o own. ground (arith, lookup-erase key k s.workload_jobs, v.owned k o);
    timed = λ k h. ground (arith, lookup-erase key k s.jobs, lookup-erase key k s.seen, v.timed k);
    untimed =
        λ k h. ground (arith, lookup-erase key k s.jobs, lookup-erase key k s.seen, v.untimed k);
    numbered = λ k p h. ground (arith, lookup-erase key k s.jobs, v.numbered k p);
    alone = λ k k' p h h'.
        ground (arith, lookup-erase key k s.jobs, lookup-erase key k' s.jobs, v.alone k k' p);
    distinct = erase-IsDict key s.jobs v.distinct;
  }

  pub drop_workload-Inv : (key : String) → Inv (drop_workload key s).0
  unfolding drop_workload
  drop_workload-Inv key =
      removed-Inv key _ (λ q k. drop_aliases-other key q k (owners_of key s) s.job_workload)

  pub drop_if_orphaned-Inv : (key : String) → Inv (drop_if_orphaned key s).0
  unfolding drop_if_orphaned
  drop_if_orphaned-Inv key = elim (Bool-cases (is_empty (owners_of key s))) [
    | inl e ↦ rw e (removed-Inv key _ (λ q k. without-other key q k s.job_workload))
    | inr e ↦ rw e v
  ]

  unowned-Inv :
      (job key : String)
      → lookup job s.job_workload ≡ some key
      → lookup key s.workload_jobs ≡ none
      → Inv (drop_alias job s)
  unfolding drop_alias
  unowned-Inv job key alias h = record {
    honest = λ k j o own m. ground (arith, lookup-erase job j s.job_workload, v.honest k j o own m);
    owned = v.owned;
    timed = v.timed;
    untimed = v.untimed;
    numbered = v.numbered;
    alone = v.alone;
    distinct = v.distinct;
  }

  pub release-Inv : (job : String) → Inv (release job s).0
  unfolding release
  release-Inv job = elim (Option-cases (lookup job s.job_workload)) [
    | inl e ↦ rw (e, release) v
    | inr (key, e) ↦
        rw (e, release)
          (elim (Option-cases (lookup key s.workload_jobs)) [
            | inl h ↦ rw (h, release) (unowned-Inv job key e h)
            | inr (o, h) ↦
                rw (h, release) (unfold drop_alias set_owners in drop_alias-Inv s v job key o e h)
          ])
  ]

  pub touch-Inv : (job : String) (now : ℕ) → Inv (touch job now s)
  unfolding touch
  touch-Inv job now = elim (Option-cases (lookup job s.job_workload)) [
    | inl e ↦ rw (e, touch) v
    | inr (key, e) ↦
        rw (e, touch)
          (elim (Option-cases (lookup key s.jobs)) [
            | inl h ↦ rw (h, touch) v
            | inr (p, h) ↦
                rw (h, touch)
                  (record {
                    honest = v.honest;
                    owned = v.owned;
                    timed = λ k g. ground (arith, lookup-insert key k now s.seen, v.timed k);
                    untimed = λ k g. ground (arith, lookup-insert key k now s.seen, v.untimed k);
                    numbered = v.numbered;
                    alone = v.alone;
                    distinct = v.distinct;
                  })
          ])
  ]

pub reap_locked-Inv :
    (now idle_after : ℕ) (items : Dict String ℕ) (s : State)
    → Inv s
    → Inv (reap_locked now idle_after items s).0
unfolding reap_locked
reap_locked-Inv now idle_after [] s v = v
reap_locked-Inv now idle_after ((key, p) ∷ items) s v =
    reap_locked-Inv now idle_after items _ (kept (is_idle now idle_after s (key, p)))
  where
    kept : (b : Bool) → Inv (if b then (drop_workload key s).0 else s)
    kept true = drop_workload-Inv s v key
    kept false = v

pub remove_job_dir-Inv : (job : String) (s : State) → Inv s → Inv (remove_job_dir job s)
unfolding remove_job_dir
remove_job_dir-Inv job s v = go (job_dir s.resolves job)
  where
    go :
        (r : Result String)
        → Inv (elim r [ ok d ↦ record s { dirs = discard d s.dirs } | fail _ ↦ s ])
    go (ok d) = host-Inv s v s.running (discard d s.dirs)
    go (fail f) = v

remove_job_dirs-Inv : (jobs : List String) (s : State) → Inv s → Inv (remove_job_dirs jobs s)
unfolding remove_job_dirs
remove_job_dirs-Inv [] s v = v
remove_job_dirs-Inv (job ∷ jobs) s v = remove_job_dirs-Inv jobs _ (remove_job_dir-Inv job s v)

remove_workload_dir-Inv : (key : String) (s : State) → Inv s → Inv (remove_workload_dir key s)
unfolding remove_workload_dir
remove_workload_dir-Inv key s v = go (workload_dir key)
  where
    go :
        (r : Result String)
        → Inv (elim r [ ok d ↦ record s { dirs = discard d s.dirs } | fail _ ↦ s ])
    go (ok d) = host-Inv s v s.running (discard d s.dirs)
    go (fail f) = v

end_process-Inv : (p : Option ℕ) (s : State) → Inv s → Inv (end_process p s)
unfolding end_process
end_process-Inv none s v = v
end_process-Inv (some p) s v = host-Inv s v (discard p s.running) s.dirs

pub clean_up-Inv : (d : Detached) (s : State) → Inv s → Inv (clean_up d s)
unfolding clean_up
clean_up-Inv d s v =
    remove_job_dirs-Inv d.aliases _
      (remove_workload_dir-Inv d.key _ (end_process-Inv d.process s v))
