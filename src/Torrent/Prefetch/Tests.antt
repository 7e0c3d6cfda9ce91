-- ===== src/Torrent/Prefetch/Tests.antt =====
-- A pack of episodes, and a tick while one of them plays.
use stremio_libtorrent_serve.Base.{
  ℕ, ◌≡◌, refl, true, false, List, [], ◌∷◌, none, some, codes, is_digit, value, ltb, contains, add,
  ℕ_discrete,
}
use stremio_libtorrent_serve.Pins.Names.{lower, lower_code, basename, has_slash}
use stremio_libtorrent_serve.Pins.Choosing.{same_text}
use stremio_libtorrent_serve.Stream.Types.{
  is_video, is_one_of, extension, last_dot, has_dot, drop_dots,
}
use stremio_libtorrent_serve.Torrent.Handle.{
  Call, Handle, new_handle, is_active, is_focus, arm_all, prefetch_arm, mark_prefetched,
}
use stremio_libtorrent_serve.Torrent.Prefetch.Order.{
  last, run, push_letter, push_digit, natural_key, less_text, less_key,
}
use stremio_libtorrent_serve.Torrent.Prefetch.{
  FileSlot, span, pieces_for_range, position_reached, eligible_from, place, sort, first_of,
  behind_current, file_at, next_of, next_video_index, head_bytes, head_pieces, tail_pieces,
  distinct,
}
use stremio_libtorrent_serve.Torrent.Prefetch.Tick.{
  Seen, Settings, all_there, file_complete, next_pieces, armed, arm, consider, tick_storage,
  tick_focus, prefetch_tick,
}
use stremio_libtorrent_serve.Torrent.Prefetch.Next.{Follows, next_video_index-Follows}
use stremio_libtorrent_serve.Torrent.Prefetch.Tick.Spared.{Spares, prefetch_tick-Spares}

program : Unit {0}
unfolding lower lower_code same_text is_video is_one_of extension last_dot has_dot drop_dots
    basename has_slash is_active is_focus arm_all prefetch_arm mark_prefetched push_letter
    push_digit natural_key less_text less_key span pieces_for_range position_reached eligible_from
    place sort first_of behind_current file_at next_of next_video_index head_bytes head_pieces
    tail_pieces distinct all_there file_complete next_pieces arm consider tick_storage tick_focus
    prefetch_tick is_digit value contains add ℕ_discrete
program = tt

parted :
    natural_key (codes "S01E2.mkv")
    ≡ run (codes "S") (codes "01") (run (codes "E") (codes "2") (last (codes ".mkv")))
unfolding program
parted = refl

ten_behind_nine : less_key (natural_key (codes "Ep 9.mkv")) (natural_key (codes "ep 10.mkv")) ≡ true
unfolding program
ten_behind_nine = refl

abbrev gib : ℕ
gib = 1073741824

abbrev pack : List FileSlot
pack =
    record { path = codes "Ep 10.mkv"; size = gib; offset = 0 }
    ∷ record { path = codes "Ep 9.mkv"; size = gib; offset = gib }
    ∷ record { path = codes "Ep 9 sample.mkv"; size = 50000000; offset = 2147483648 }
    ∷ []

next_is_ten : next_video_index pack 1 ≡ some 0
unfolding program
next_is_ten = refl

ninth : file_at 1 pack ≡ some (record { path = codes "Ep 9.mkv"; size = gib; offset = gib })
unfolding program
ninth = refl

next_video_index-Follows_example :
    Follows pack 1 0 (record { path = codes "Ep 9.mkv"; size = gib; offset = gib })
next_video_index-Follows_example = next_video_index-Follows pack 1 0 _ ninth next_is_ten

no_next : next_video_index pack 0 ≡ none
unfolding program
no_next = refl

abbrev seen : Seen
seen = record {
  has_metadata = true;
  storage = some (record { plen = 268435456; files = pack });
  have = λ p. ltb 3 p;
  focus_later = some 1;
  paused = false;
}

abbrev playing : Handle
playing = record (new_handle (some 3)) {
  focused = some 1;
  active = 1;
  read_pos = 1000000000;
  read_total = gib;
}

abbrev settings : Settings
settings = record { trigger = 800; fraction = 50; max_bytes = 134217728 }

-- The head is in the first piece, the end in the fourth.
arms_two :
    prefetch_tick settings seen playing
    ≡ armed
        (record playing {
          prefetched = 0 ∷ [];
          calls = Call.piece_priority 3 1 ∷ Call.piece_priority 0 1 ∷ [];
        })
        false
        536870912
unfolding program
arms_two = refl

prefetch_tick-Spares_example : Spares seen playing (prefetch_tick settings seen playing)
prefetch_tick-Spares_example = prefetch_tick-Spares settings seen playing
