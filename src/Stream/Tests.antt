-- ===== src/Stream/Tests.antt =====
-- Runs of a stream, and its theorems at a concrete range.
use stremio_libtorrent_serve.Base.{◌+◌, ◌≡◌, refl, List, [], ◌∷◌, arith}
use stremio_libtorrent_serve.Stream.Serving.{
  Plan, first_reader, Answer, Ending, piece_at, window_end, boost_from, slide, wanted_bytes,
  read_bytes, advance, ended, yield_chunk, round, serve, wait_and_read,
}
use stremio_libtorrent_serve.Stream.Serving.Verified.{
  Chunks, wait_and_read-Chunks, sent, wait_and_read-complete,
}

program : Unit {0}
unfolding first_reader piece_at window_end boost_from slide wanted_bytes read_bytes advance ended
    yield_chunk round serve wait_and_read
program = tt

-- A file that begins 5 bytes into a torrent of ten pieces of 10 bytes.
abbrev plan : Plan
plan = record {
  plen = 10;
  base = 5;
  total = 10;
  window = 4;
  last = 19;
  chunk = 8;
  offset = 0;
  step = 50;
}

abbrev arriving : List Answer
arriving = Answer.present 8 ∷ Answer.present 8 ∷ Answer.present 8 ∷ Answer.present 8 ∷ []

-- Chunks end where pieces do.
chunks : (wait_and_read plan 2 arriving).chunks ≡ (2, 3) ∷ (5, 8) ∷ (13, 2) ∷ (15, 5) ∷ []
unfolding program
chunks = refl

starved : (wait_and_read plan 2 (Answer.present 3 ∷ Answer.missing ∷ [])).ending ≡ Ending.starved
unfolding program
starved = refl

wait_and_read-Chunks_example : Chunks plan 2 (wait_and_read plan 2 arriving).chunks
wait_and_read-Chunks_example = wait_and_read-Chunks plan 2 arriving (omega arith)

abbrev bytes : List Answer
bytes = Answer.present 1 ∷ Answer.present 1 ∷ []

wait_and_read-complete_example :
    ((wait_and_read plan 18 bytes).ending ≡ Ending.complete)
    × (18 + sent (wait_and_read plan 18 bytes).chunks ≡ 20)
wait_and_read-complete_example =
    wait_and_read-complete plan 18 bytes (omega arith) (omega arith) (omega arith)
      (omega arith, (omega arith, tt)) (omega arith)
