-- ===== src/Stream/Serving.antt =====
-- `wait_and_read` of src/stremiosrv/stream/fileserver.py: the bytes of a range, piece by piece, as they arrive.
pub mod Verified
pub mod Window
use stremio_libtorrent_serve.Base.{
  ℕ, zero, suc, ◌+◌, ◌-◌, ◌*◌, ◌/◌, min, max, Bool, true, false, not, List, [], ◌∷◌, ◌++◌, ltb,
  if◌then◌else◌,
}

-- The arguments of one call, and what it reads off the handle first: `last` is `end`, and `offset`
-- is `offset_ms`.
pub record Plan : Type 0 where
  pub plen : ℕ
  pub base : ℕ
  pub total : ℕ
  pub window : ℕ
  pub last : ℕ
  pub chunk : ℕ
  pub offset : ℕ
  pub step : ℕ

-- `max(4, min(total, window_bytes // plen))`
unfoldable pub window_pieces : ℕ → ℕ → ℕ → ℕ
window_pieces total window_bytes plen = max 4 (min total (window_bytes / plen))

-- `next` is `deadlined_to + 1`: the first piece that is not boosted yet.
pub record Reader : Type 0 where
  pub pos : ℕ
  pub next : ℕ

unfoldable pub first_reader : Plan → ℕ → Reader
first_reader p start = record { pos = start; next = (p.base + start) / p.plen }

-- What happens at a position: the piece does not arrive in its time, it is there and that many bytes
-- of it can be read, or an exception is raised.
pub data Answer : Type 0 where
  missing : Answer
  present : ℕ → Answer
  fault : Answer

-- How the generator ends; `waiting` where the answers end before it does.
pub data Ending : Type 0 where
  complete : Ending
  starved : Ending
  short : Ending
  broken : Ending
  waiting : Ending

-- The chunks yielded, by position and length, and the pieces boosted, with their deadlines.
pub record Served : Type 0 where
  pub chunks : List (ℕ × ℕ)
  pub boosts : List (ℕ × ℕ)
  pub ending : Ending

-- The global index of the piece at the position.
unfoldable pub piece_at : Plan → ℕ → ℕ
piece_at p pos = (p.base + pos) / p.plen

-- `far + 1`
unfoldable pub window_end : Plan → ℕ → ℕ
window_end p pos = min (suc (piece_at p pos + p.window)) p.total

-- The loop that slides the window: `count` pieces from `piece` on.
unfoldable pub boost_from : Plan → ℕ → ℕ → ℕ → List (ℕ × ℕ)
boost_from p gp zero piece = []
boost_from p gp (suc count) piece =
    (piece, p.offset + (piece - gp) * p.step) ∷ boost_from p gp count (suc piece)

unfoldable pub slide : Plan → Reader → List (ℕ × ℕ)
slide p r = boost_from p (piece_at p r.pos) (window_end p r.pos - r.next) r.next

-- `min(chunk, end - pos + 1, piece_last - pos + 1)`
unfoldable pub wanted_bytes : Plan → ℕ → ℕ
wanted_bytes p pos =
    min p.chunk (min (suc p.last - pos) (piece_at p pos * p.plen + p.plen - (p.base + pos)))

-- The length of what `f.read(n)` returns.
unfoldable pub read_bytes : Plan → ℕ → Answer → ℕ
read_bytes p pos (Answer.present k) = min k (wanted_bytes p pos)
read_bytes p pos _ = 0

unfoldable pub advance : Plan → Reader → Answer → Reader
advance p r a = record {
  pos = r.pos + read_bytes p r.pos a;
  next = max r.next (window_end p r.pos);
}

unfoldable pub ended : List (ℕ × ℕ) → Ending → Served
ended boosts ending = record { chunks = []; boosts = boosts; ending = ending }

unfoldable pub yield_chunk : Plan → Reader → ℕ → Served → Served
yield_chunk p r zero rest = ended (slide p r) Ending.short
yield_chunk p r (suc n) rest = record {
  chunks = (r.pos, suc n) ∷ rest.chunks;
  boosts = slide p r ++ rest.boosts;
  ending = rest.ending;
}

-- One round of the loop, given what follows it.
unfoldable pub round : Plan → Reader → Answer → Served → Served
round p r Answer.missing rest = ended (slide p r) Ending.starved
round p r Answer.fault rest = ended (slide p r) Ending.broken
round p r (Answer.present k) rest = yield_chunk p r (read_bytes p r.pos (Answer.present k)) rest

unfoldable pub serve : Plan → Reader → List Answer → Served
serve p r [] = ended [] (if ltb p.last r.pos then Ending.complete else Ending.waiting)
serve p r (a ∷ answers) =
    let rest = serve p (advance p r a) answers in
    if ltb p.last r.pos then ended [] Ending.complete else round p r a rest

unfoldable pub wait_and_read : Plan → ℕ → List Answer → Served
wait_and_read p start answers = serve p (first_reader p start) answers
