-- ===== src/Library/Tests.antt =====
-- Runs of the library's server side, and its theorems at concrete states.
use stremio_libtorrent_serve.Base.{
  ◌≤◌, ◌≡◌, refl, true, false, Option, none, [], ◌∷◌, string_key, str_discrete, lookup, insert,
  erase, keep, lower, unequal, arith,
}
use stremio_libtorrent_serve.Library.RateLimit.{
  Hits, last, in_window, is_recent, reap, or_empty, allow,
}
use stremio_libtorrent_serve.Library.RateLimit.Window.{Runs, granted_in, Runs-limit}
use stremio_libtorrent_serve.Library.Session
use stremio_libtorrent_serve.Library.Labels.{
  FileValue, file_record, Labels, with_field, selected, put, Report, recorded, learned, is_there,
  has_time, has_fields, is_true, learn, same_text, same_video, has_file, add_found, add_valid,
  add_file,
}
use stremio_libtorrent_serve.Library.Session.{
  Entry, State, load_state, User, is_equal, is_blank, owner_matches, Entrance, with_owner,
  claim_owner, with_sessions, new_session, is_live, has_live, all_live, drop_found, verify_session,
  drop_session, with_token, ensure_addon_token, reset_addon_token,
}
use stremio_libtorrent_serve.Library.Session.Pin.{Step, Steps, claim_owner-pinned}
use stremio_libtorrent_serve.Library.Session.Lifetime.{Elsewhere, verify_session-lifetime}

program : Unit {0}
unfolding lookup insert erase keep str_discrete last in_window is_recent reap or_empty allow
    granted_in load_state is_equal is_blank owner_matches with_owner claim_owner with_sessions
    new_session is_live has_live all_live drop_found verify_session drop_session with_token
    ensure_addon_token reset_addon_token Session.reap lower file_record with_field selected put
    recorded learned is_there has_time has_fields is_true learn same_text same_video has_file
    add_found add_valid add_file
program = tt

-- Two attempts in a window of ten are the limit.
abbrev first : Hits
first = (allow 2 10 "a" 1 []).0

abbrev second : Hits
second = (allow 2 10 "a" 2 first).0

third_refused : ((allow 2 10 "a" 3 second).1 ≡ false) × ((allow 2 10 "a" 11 second).1 ≡ true)
unfolding program
third_refused = (refl, refl)

Runs-limit_example : granted_in 10 "a" 3 (("a", 2) ∷ ("a", 1) ∷ []) ≤ 2
unfolding program
Runs-limit_example =
    Runs-limit 2 10 3 _ (("a", 2) ∷ ("a", 1) ∷ [])
      (Runs.attempt "a" 2 3 second (("a", 2) ∷ ("a", 1) ∷ [])
        (Runs.attempt "a" 1 2 first (("a", 1) ∷ [])
          (Runs.attempt "a" 0 1 [] [] Runs.start (omega arith)) (omega arith))
        (omega arith))
      "a" 3 (omega arith)

abbrev alice : User
alice = record { id = "alice"; email = "a@x" }

abbrev mallory : User
mallory = record { id = "mallory"; email = "m@x" }

abbrev claimed : Option State
claimed = (claim_owner alice "" none).0

abbrev signed : Option State
signed = new_session "sid" 100 50 claimed

claim_owner-pinned_example : (claim_owner mallory "" signed).1 ≡ Entrance.not_owner
unfolding program
claim_owner-pinned_example =
    claim_owner-pinned alice mallory none signed refl (unequal "alice" "" refl)
      (Steps.more claimed signed signed (Step.signing_in "sid" 100 50 claimed) (Steps.done signed))

verify_session-lifetime_example :
    (verify_session "sid" 149 (verify_session "sid" 120 signed).0).1 ≡ true
unfolding program
verify_session-lifetime_example =
    verify_session-lifetime "sid" 100 50 149 claimed (verify_session "sid" 120 signed).0
      (unequal "sid" "" refl)
      (Elsewhere.verifying "sid" 120 signed (verify_session "sid" 120 signed).0 (omega arith)
        (Elsewhere.none_yet _))

abbrev report : Report
report = record { fields = ("metaId", "tt1") ∷ []; file = FileValue.file "film.mkv" 700 }

abbrev labels : Labels
labels = put 5 "AB" (("metaId", "tt1") ∷ ("name", "Film") ∷ ("authKey", "secret") ∷ []) []

reported_file : (add_file "ab" report labels).1 ≡ true
unfolding program
reported_file = refl
