-- ===== src/Torrent/TrackerSource/Tests.antt =====
-- Runs of the tracker lists at concrete inputs.
use stremio_libtorrent_serve.Base.{
  ◌≡◌, refl, true, List, [], ◌∷◌, some, none, codes, codes_key, codes_discrete, contains,
}
use stremio_libtorrent_serve.Torrent.Trackers.{Text, parse_tracker_string, sources_to_trackers}
use stremio_libtorrent_serve.Torrent.TrackerSource.{start, refresh_all}
use stremio_libtorrent_serve.Torrent.TrackerSource.Restart.{IsUsable, refresh_all-restart}

abbrev own : List Text
own = codes "udp://a:1" ∷ codes "udp://b:2" ∷ []

abbrev body : Text
body = codes " udp://a:1,# no\nudp://b:2\tudp://a:1,"

parsed_body : parse_tracker_string body ≡ own
unfolding parse_tracker_string contains codes_discrete
parsed_body = refl

prefixed_sources :
    sources_to_trackers (
      some (codes "tracker:udp://a:1")
      ∷ none
      ∷ some (codes "dht:00")
      ∷ some (codes "udp://b:2 ")
      ∷ [])
    ≡ own
unfolding sources_to_trackers contains codes_discrete
prefixed_sources = refl

refresh_all-restart_example :
    let s = refresh_all (some body ∷ none ∷ []) true (start true none) in
    ((start true s.file).trackers ≡ s.trackers) × (IsUsable (start true none) → IsUsable s)
refresh_all-restart_example = refresh_all-restart none (some body ∷ none ∷ [])
