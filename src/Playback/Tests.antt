-- ===== src/Playback/Tests.antt =====
-- Runs of the playback registry, and its theorems at concrete states.
use stremio_libtorrent_serve.Base.{
  ◌≡◌, refl, none, List, [], ◌∷◌, String, string_key, str_discrete, starts_with, lookup, insert,
  erase, keep, lower,
}
use stremio_libtorrent_serve.Playback.Sessions.{
  Client, Registry, initial, occurs, classify_client, is_stale, stale_ids, is_text, drop_job,
  drop_job_of, drop_found, drop_all, prune, open_source, change_found, change, with_bytes,
  note_bytes, closed, close_source, text_or, reported, Request, hls_session, new_hls,
  register_found, register_named, register_hls_job, with_agent, change_named, touch_hls, finished,
  end_hls,
}
use stremio_libtorrent_serve.Playback.Invariant.{Inv, Step, Reach, Reach-Inv}
use stremio_libtorrent_serve.Playback.Snapshot.{
  Row, is_ended, is_ffmpeg, is_active, row_of, rows_of, place, sort_rows, snapshot,
}

program : Unit {0}
unfolding lookup insert erase keep lower str_discrete starts_with occurs classify_client is_stale
    stale_ids is_text drop_job drop_job_of drop_found drop_all prune open_source change_found change
    with_bytes note_bytes closed close_source text_or reported hls_session new_hls register_found
    register_named register_hls_job with_agent change_named touch_hls finished end_hls is_ended
    is_ffmpeg is_active row_of rows_of place sort_rows snapshot
program = tt

abbrev film : Request
film = record {
  job_id = "job";
  info_hash = "AB";
  file_idx = 0;
  user_agent = "Mozilla/5.0";
  workload_id = none;
}

-- A source that FFmpeg reads, and the HLS job that it reads for.
abbrev reading : Registry
reading = open_source 120 10 "s1" "AB" 0 "Lavf/60.3" initial

abbrev watching : Registry
watching = (register_hls_job 120 12 "s2" film reading).0

reading-Reach : Reach 120 reading
unfolding program
reading-Reach =
    Reach.next initial reading Reach.start (Step.opening 10 "s1" "AB" 0 "Lavf/60.3" initial refl)

watching-Reach : Reach 120 watching
unfolding program
watching-Reach =
    Reach.next reading watching reading-Reach (Step.registering 12 "s2" film reading refl)

clients :
    (classify_client "Lavf/60" ≡ Client.ffmpeg)
    × (classify_client "Stremio/4" ≡ Client.stremio)
    × (classify_client "VLC" ≡ Client.http)
unfolding program
clients = (refl, refl, refl)

active_rows : List Row → List String
active_rows [] = []
active_rows (q ∷ rows) = q.session_id ∷ active_rows rows

-- FFmpeg's own reads are no viewer.
only_viewer : active_rows (snapshot 15 120 20 watching).1.active ≡ "s2" ∷ []
unfolding program active_rows
only_viewer = refl

Reach-Inv_example : Inv watching
Reach-Inv_example = Reach-Inv 120 watching watching-Reach
