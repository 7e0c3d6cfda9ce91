-- ===== src/Torrent/Tests.antt =====
-- Runs of a torrent's handle and of the engine's decisions, and their theorems at concrete states.
use stremio_libtorrent_serve.Base.{
  ◌≤◌, ◌≡◌, refl, true, some, number_key, ℕ_discrete, contains, add, arith,
}
use stremio_libtorrent_serve.Torrent.Handle.{
  Handle, new_handle, repeat, set_at, mark_wanted, is_none, base_priorities, is_active, num_files,
  with_focus, priorities, call, focus_known, is_focus, focus_file, want_known, want_file,
  reapply_priorities, focused_priority, set_focused_priority, mark_active, mark_idle, boost_piece,
  unrush, refocus,
}
use stremio_libtorrent_serve.Torrent.Handle.Wanting.{asked, Step, Reach, Reach-asked}
use stremio_libtorrent_serve.Torrent.Policy.{
  idle_download_limit, any_active, limits, apply_bandwidth_policy, SeedRules, past_completion,
  should_stop_seeding, completed, enforce, adaptive_sequential,
}
use stremio_libtorrent_serve.Torrent.Policy.Hysteresis.{modes}
use stremio_libtorrent_serve.Torrent.Policy.Seeding.{after}

program : Unit {0}
unfolding contains add ℕ_discrete repeat set_at mark_wanted is_none base_priorities is_active
    num_files with_focus priorities call focus_known is_focus focus_file want_known want_file
    reapply_priorities focused_priority set_focused_priority mark_active mark_idle boost_piece
    unrush refocus idle_download_limit any_active limits apply_bandwidth_policy past_completion
    should_stop_seeding completed enforce adaptive_sequential modes after
program = tt

-- A pack of three files: the second is downloaded while the first is played.
abbrev pack : Handle
pack = new_handle (some 3)

abbrev wanting : Handle
wanting = want_file 1 pack

abbrev playing : Handle
playing = focus_file 0 (mark_active wanting)

both_fetched :
    (asked 0 playing.calls ≡ 4) × (asked 1 playing.calls ≡ 1) × (asked 2 playing.calls ≡ 0)
unfolding program
both_fetched = (refl, refl, refl)

playing-Reach : Reach (some 3) playing
playing-Reach =
    Reach.next (mark_active wanting) playing
      (Reach.next wanting (mark_active wanting)
        (Reach.next pack wanting Reach.start (Step.wanting 1 pack)) (Step.opening wanting))
      (Step.focusing 0 (mark_active wanting))

Reach-asked_example : 1 ≤ asked 1 playing.calls
unfolding program
Reach-asked_example = Reach-asked (some 3) playing 1 playing-Reach (omega arith) refl

abbrev rules : SeedRules
rules = record { seed_on_complete = true; max_seed_minutes = 1 }
