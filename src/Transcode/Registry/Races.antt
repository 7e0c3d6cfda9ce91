-- ===== src/Transcode/Registry/Races.antt =====
-- What can happen between the locked parts, and after an encoder has exited.
use stremio_libtorrent_serve.Base.{
  ℕ, ◌≡◌, refl, ◌≢◌, Bool, true, false, none, some, [], ◌∷◌, String, erase, if_pos, string_key,
  str_discrete, number_key, lookup, contains, arith, lookup-insert, lookup-erase, ◌∙◌, ap,
}
use stremio_libtorrent_serve.Transcode.Registry.State.{
  State, is_running, owners_of, forget, live_at, drop_alias, set_owners,
}
use stremio_libtorrent_serve.Transcode.Registry.Directories.{ok, job_dir}
use stremio_libtorrent_serve.Transcode.Registry.Ensure.{
  ensure_locked, is_refresh, rebind, acquire, start, start_if, launch, fresh_dir,
}
use stremio_libtorrent_serve.Transcode.Registry.Ending.{release, drop_workload, drop_if_orphaned}
use stremio_libtorrent_serve.Transcode.Registry.Methods.{
  stop, stop_workload_if_orphaned, stop_workload,
}
use stremio_libtorrent_serve.Transcode.Registry.Cleanup.{clean_up-Cleaned}
use stremio_libtorrent_serve.Transcode.Registry.Sharing.{ensure_locked-shares}
use stremio_libtorrent_serve.Transcode.Registry.Release.{stop_final, is_empty-contains}

module _ (job key : String) (now p : ℕ) (s : State) where
  -- Where the job's encoder has exited, asking again starts a new one.
  respawned :
      lookup job s.job_workload ≡ some key
      → lookup key s.jobs ≡ some p
      → is_running s p ≡ false
      → s.can_spawn ≡ true
      → (ensure_locked job key now s).state ≡ launch job key now (fresh_dir key (forget key s))
  unfolding ensure_locked
  respawned alias live dead can =
      rw stale (ap (λ r. (acquire job key now r.0).0) rebound ∙ acquired)
    where
      stale : is_refresh job key s ≡ false
      stale = unfold is_refresh live_at in ground (arith, alias, live, dead)

      rebound : rebind job key s ≡ (forget key s, none)
      rebound = unfold rebind in (rw (alias, rebind) (if_pos (str_discrete key key) refl _ _))

      forgotten : lookup key (forget key s).jobs ≡ none
      forgotten = unfold forget in ground (arith, lookup-erase key key s.jobs)

      started :
          (b : Bool)
          → b ≡ true
          → (start_if b job key now (forget key s)).0
            ≡ launch job key now (fresh_dir key (forget key s))
      started true e = unfold start_if in refl
      started false e = cc

      acquired :
          (acquire job key now (forget key s)).0 ≡ launch job key now (fresh_dir key (forget key s))
      acquired =
          unfold acquire start in (rw (forgotten, acquire) (started _ (unfold forget in can)))

  -- A workload loses its other owners when its encoder has exited and one of them asks again:
  -- when that one then stops, the new encoder ends under `other`, which is still an alias.
  pub stop_after_respawn :
      (other : String)
      → job_dir s.resolves job ≡ ok job
      → lookup job s.job_workload ≡ some key
      → lookup other s.job_workload ≡ some key
      → other ≢ job
      → lookup key s.jobs ≡ some p
      → is_running s p ≡ false
      → s.can_spawn ≡ true
      → let u = (ensure_locked job key now s).state in
        let t = (stop job u).0 in
        (is_running u s.spawned ≡ true)
        × (lookup other u.job_workload ≡ some key)
        × (is_running t s.spawned ≡ false)
        × (lookup other t.job_workload ≡ some key)
        × (lookup key t.jobs ≡ none)
  stop_after_respawn other valid alias alias' ne live dead can =
      rw (respawned alias live dead can)
        (launched_runs, other_alias, final.0, final.6 other ne ∙ other_alias, final.2)
    where
      u : State
      u = launch job key now (fresh_dir key (forget key s))

      launched_runs : is_running u s.spawned ≡ true
      launched_runs = unfold launch is_running fresh_dir forget contains in ground arith

      other_alias : lookup other u.job_workload ≡ some key
      other_alias =
          unfold launch fresh_dir forget in
          ground (arith, lookup-insert job other key s.job_workload, alias')

      final :
          (is_running (stop job u).0 s.spawned ≡ false)
          × ((q : ℕ) → q ≢ s.spawned → is_running (stop job u).0 q ≡ is_running u q)
          × (lookup key (stop job u).0.jobs ≡ none)
          × (lookup key (stop job u).0.workload_jobs ≡ none)
          × (lookup key (stop job u).0.seen ≡ none)
          × (lookup job (stop job u).0.job_workload ≡ none)
          × ((j : String)
              → j ≢ job
              → lookup j (stop job u).0.job_workload ≡ lookup j u.job_workload)
      final =
          unfold launch fresh_dir forget in
          stop_final job key s.spawned (job ∷ []) u valid
            (ground (arith, lookup-insert job job key s.job_workload))
            (ground (arith, lookup-insert key key (job ∷ []) s.workload_jobs)) (λ j h. sole j h)
            (ground (arith, lookup-insert key key s.spawned (erase key s.jobs)))
        where
          sole : (j : String) → contains j (job ∷ []) ≡ true → j ≡ job
          sole j h = unfold contains in ground (arith, h)

release-keeps :
    (job : String) (s : State)
    → ((release job s).0.jobs ≡ s.jobs) × ((release job s).0.running ≡ s.running)
unfolding release drop_alias set_owners
release-keeps job s = ground arith

-- `stop` does not look again, as `ensure_job` does: a job that takes the workload over between
-- its two parts is told that it was started, and then loses its encoder.
pub stop_race :
    (job other key : String) (now p : ℕ) (s : State)
    → (release job s).1 ≡ some key
    → lookup key s.jobs ≡ some p
    → is_running s p ≡ true
    → let b = ensure_locked other key now (release job s).0 in
      (b.started ≡ true)
      × (is_running b.state p ≡ true)
      × (is_running (stop_workload key b.state) p ≡ false)
      × (lookup key (stop_workload key b.state).jobs ≡ none)
stop_race job other key now p s last live run =
    let r = release-keeps job s in
    let t = (release job s).0 in
    let run' : is_running t p ≡ true = unfold is_running in (ap (contains p) r.1 ∙ run) in
    let (started, live', running, _, _, _) =
      ensure_locked-shares other key now p t (ap (lookup key) r.0 ∙ live) run' in
    let u = (ensure_locked other key now t).state in
    let c =
      clean_up-Cleaned (drop_workload key u).1 p (drop_workload key u).0
        (unfold drop_workload in live') in
    (
      started,
      unfold is_running in (ap (contains p) running ∙ run'),
      unfold stop_workload in c.ended,
      unfold stop_workload drop_workload in ground (arith, c.jobs, lookup-erase key key u.jobs),
    )

-- The check of `ensure_job` spares a workload that a job has taken over meanwhile.
pub orphan_check_spares :
    (j key : String) (s : State)
    → contains j (owners_of key s) ≡ true
    → stop_workload_if_orphaned key s ≡ (s, false)
unfolding stop_workload_if_orphaned
orphan_check_spares j key s owner = rw (spared, stop_workload_if_orphaned) (rw spared refl)
  where
    spared : drop_if_orphaned key s ≡ (s, none)
    spared = unfold drop_if_orphaned in (rw (is_empty-contains j (owners_of key s) owner))
