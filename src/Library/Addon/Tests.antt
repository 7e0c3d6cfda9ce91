-- ===== src/Library/Addon/Tests.antt =====
-- Runs of the addon at concrete inputs.
use stremio_libtorrent_serve.Base.{
  ◌≡◌, refl, true, false, [], ◌∷◌, ◌++◌, none, some, arith, codes, map, print, is_lower_hex,
}
use stremio_libtorrent_serve.Pins.Names.{Text, lower_code}
use stremio_libtorrent_serve.Library.Addon.Ids.{id_prefix, format_id, parse_id, id}
use stremio_libtorrent_serve.Library.Addon.Ids.RoundTrip.{parse_id-format_id, parse_id_line_feed}
use stremio_libtorrent_serve.Library.Addon.Files.{
  File, Label, Entry, playable_index, reads_as_episode,
}
use stremio_libtorrent_serve.Library.Addon.Streams.{streams_for_meta_id}
use stremio_libtorrent_serve.Library.Addon.Learning.{Played}

abbrev hash : Text
hash = codes "0123456789ABCDEF0123456789abcdef01234567"

abbrev sample : File
sample = record {
  index = some 0;
  name = codes "S/e.mkv";
  size = 5;
  downloaded = 5;
  progress = 1000;
}

abbrev episode : File
episode = record {
  index = some 3;
  name = codes "S01E02.mkv";
  size = 90;
  downloaded = 90;
  progress = 0;
}

abbrev pack : Entry
pack = record {
  is_orphan = false;
  info_hash = hash;
  label = none;
  files = sample ∷ episode ∷ [];
  wanted_file = [];
  num_files = 2;
  num_videos = 2;
}

abbrev report : Played
report = record {
  meta_id = codes "tt1";
  season = some 1;
  episode = some 2;
  size = 90;
  name = codes "S01E02.mkv";
}

abbrev learned : Label
learned = record {
  meta_id = codes "tt1";
  season = some 1;
  episode = some 2;
  file = some (codes "S01E02.mkv", 90);
  last_source_at = none;
}

abbrev labelled : Entry
labelled = record pack { label = some learned }

offered_pack :
    streams_for_meta_id (labelled ∷ []) (codes "tt1") (some 1) (some 2)
    ≡ record {
      info_hash = codes "0123456789abcdef0123456789abcdef01234567";
      index = 3;
      last_source_at = none;
    }
      ∷ []
unfolding streams_for_meta_id
offered_pack = refl

plays_largest : playable_index pack ≡ some 3
unfolding playable_index
plays_largest = refl

codec_tag : reads_as_episode (codes "Film.DD5.1x264") ≡ false
unfolding reads_as_episode
codec_tag = refl

crossed : reads_as_episode (codes "The.100.1x05") ≡ true
unfolding reads_as_episode
crossed = refl

parse_id-format_id_example :
    parse_id (format_id hash (some 12)) ≡ id (map lower_code hash) (some 12)
parse_id-format_id_example =
    parse_id-format_id hash (some 12) (unfold lower_code is_lower_hex in ground arith)
      (unfold print in omega arith)

parse_id_line_feed_example :
    parse_id (id_prefix ++ (map lower_code hash ++ 10 ∷ []))
    ≡ id (map lower_code hash ++ 10 ∷ []) none
parse_id_line_feed_example =
    parse_id_line_feed hash (unfold lower_code is_lower_hex in ground arith)
