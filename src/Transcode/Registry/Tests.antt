-- ===== src/Transcode/Registry/Tests.antt =====
-- Runs of the registry, and its theorems at concrete states.
use stremio_libtorrent_serve.Base.{
  ◌≡◌, refl, true, false, none, some, [], ◌∷◌, String, string_key, number_key, str_discrete,
  ℕ_discrete, lookup, insert, erase, contains, add, discard, unequal, has_code, all_codes,
  is_lower_hex,
}
use stremio_libtorrent_serve.Transcode.Registry.Directories.{
  ok, fail, unsafe, is_component, inside, job_dir, workload_dir,
}
use stremio_libtorrent_serve.Transcode.Registry.State.{
  State, is_running, live_at, forget, is_empty, set_owners, drop_alias, owners_of,
}
use stremio_libtorrent_serve.Transcode.Registry.Ensure.{
  detach, attach, launch, fresh_dir, start_if, start, acquire, rebind, is_refresh, ensure_locked,
}
use stremio_libtorrent_serve.Transcode.Registry.Ending.{
  drop_aliases, drop_workload, aliases_of, without, drop_if_orphaned, release, last_seen, is_idle,
  reap_locked, end_process, remove_workload_dir, remove_job_dir, remove_job_dirs, clean_up,
}
use stremio_libtorrent_serve.Transcode.Registry.Methods.{
  stop_workload, stop_workload_if_orphaned, stop_orphan, ensure_job, stop_released, stop,
  clean_up_all, reaped, reap_idle, count_running, active_count,
}
use stremio_libtorrent_serve.Transcode.Registry.Invariant.{Inv}
use stremio_libtorrent_serve.Transcode.Registry.Invariant.Ensuring.{ensure_locked-Inv}
use stremio_libtorrent_serve.Transcode.Registry.Invariant.Schedules.{
  here, initial, initial-Reach-Inv,
}
use stremio_libtorrent_serve.Transcode.Registry.Reaping.{reap_idle_exact}
use stremio_libtorrent_serve.Transcode.Registry.Races.{stop_after_respawn, stop_race}

program : Unit {0}
unfolding lookup insert erase contains add discard str_discrete ℕ_discrete has_code all_codes
    is_lower_hex is_component inside job_dir workload_dir is_running live_at forget is_empty
    set_owners drop_alias owners_of detach attach launch fresh_dir start_if start acquire rebind
    is_refresh ensure_locked drop_aliases drop_workload aliases_of without drop_if_orphaned release
    last_seen is_idle reap_locked end_process remove_workload_dir remove_job_dir remove_job_dirs
    clean_up stop_workload stop_workload_if_orphaned stop_orphan ensure_job stop_released stop
    clean_up_all reaped reap_idle count_running active_count
program = tt

abbrev fresh : State
fresh = initial [] 0 true [] (λ name. some true)

-- Two clients play the same thing.
abbrev alone : State
alone = (ensure_locked "a" "k" 10 fresh).state

abbrev shared : State
shared = (ensure_locked "b" "k" 12 alone).state

-- Their encoder has come to its end.
abbrev finished : State
finished = record shared { running = [] }

alone-Inv : Inv alone
alone-Inv =
    ensure_locked-Inv "a" "k" 10 fresh
      (initial-Reach-Inv [] 0 true [] (λ name. some true) fresh here)

shared-Inv : Inv shared
shared-Inv = ensure_locked-Inv "b" "k" 12 alone alone-Inv

shared_once : (shared.running ≡ 0 ∷ []) × (active_count shared ≡ 1)
unfolding program
shared_once = (refl, refl)

abbrev hex64 : String
hex64 = "0123456789abcdef0123456789abcdef0123456789abcdef0123456789abcdef"

ensure_job_ok : (ensure_job "a" hex64 10 fresh).1 ≡ ok hex64
unfolding program
ensure_job_ok = refl

ensure_job_unsafe : ensure_job "../etc" hex64 10 fresh ≡ (fresh, fail unsafe)
unfolding program
ensure_job_unsafe = refl

reaped_both : (reap_idle 400 300 shared).1 ≡ "b" ∷ "a" ∷ []
unfolding program
reaped_both = refl

reap_idle_exact_example :
    let t = (reap_idle 400 300 shared).0 in (lookup "k" t.jobs ≡ none) × (is_running t 0 ≡ false)
unfolding program
reap_idle_exact_example = reap_idle_exact 400 300 shared shared-Inv "k" 0 refl

stop_after_respawn_example :
    let u = (ensure_locked "a" "k" 20 finished).state in
    let t = (stop "a" u).0 in
    (is_running u 1 ≡ true)
    × (lookup "b" u.job_workload ≡ some "k")
    × (is_running t 1 ≡ false)
    × (lookup "b" t.job_workload ≡ some "k")
    × (lookup "k" t.jobs ≡ none)
unfolding program
stop_after_respawn_example =
    stop_after_respawn "a" "k" 20 0 finished "b" refl refl refl (unequal "b" "a" refl) refl refl
      refl

stop_race_example :
    let b = ensure_locked "b" "k" 12 (release "a" alone).0 in
    (b.started ≡ true)
    × (is_running b.state 0 ≡ true)
    × (is_running (stop_workload "k" b.state) 0 ≡ false)
    × (lookup "k" (stop_workload "k" b.state).jobs ≡ none)
unfolding program
stop_race_example = stop_race "a" "b" "k" 12 0 alone refl refl refl
