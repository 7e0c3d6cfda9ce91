-- ===== src/Torrent/Selections/Tests.antt =====
-- Runs of the engine's selectors at concrete inputs.
use stremio_libtorrent_serve.Base.{
  ◌≡◌, refl, List, [], ◌∷◌, none, some, codes, codes_key, number_key, lookup,
}
use stremio_libtorrent_serve.Pins.Names.{Want}
use stremio_libtorrent_serve.Pins.Wanted.{load}
use stremio_libtorrent_serve.Pins.Wanted.Remembering.{Call, add_call, drop_call, asked}
use stremio_libtorrent_serve.Torrent.Selections.{Contents, Engine, restart}
use stremio_libtorrent_serve.Torrent.Selections.Synced.{request_all, request_all-restart}

abbrev pack : Contents
pack = record { files = (codes "a.mkv", 5) ∷ (codes "b.mkv", 6) ∷ []; pieces = 4 }

abbrev first : Want
first = record { file_idx = some 0; season = none; episode = none }

abbrev empty : Engine
empty = record { handles = []; wanted = []; applied = []; file = none }

abbrev calls : List Call
calls = add_call (codes "AA") (some first) ∷ drop_call (codes "bb") ∷ []

request_all-restart_example :
    (lookup (codes "aa") (request_all (λ _. pack) calls empty).wanted
      ≡ asked calls (codes "aa") (lookup (codes "aa") (load none)))
    × (lookup (codes "aa") (restart [] (request_all (λ _. pack) calls empty)).wanted
        ≡ lookup (codes "aa") (request_all (λ _. pack) calls empty).wanted)
request_all-restart_example =
    request_all-restart (λ _. pack) calls [] (codes "aa") empty (unfold load in refl)
