-- ===== src/Stream/Ranges.antt =====
-- `parse_range` of src/stremiosrv/stream/ranges.py, and what `serve` of src/stremiosrv/api/playback.py
-- answers by it. A header is its code points, all below 256; the only digits among those are ASCII's.
pub mod Written
pub mod Body
pub mod PastEnd
mod Tests
use mathlib.Core.Option
use stremio_libtorrent_serve.Base.{
  ℕ, zero, suc, ◌+◌, ◌-◌, min, Bool, true, false, List, [], ◌∷◌, Option, none, some, ◌==◌, leb,
  if◌then◌else◌, codes, ℤ, pos, negsuc, negated, number, strip, after_prefix,
}
use stremio_libtorrent_serve.Stream.Serving.{Plan, Answer, Ending, Served, wait_and_read}

abbrev pub Text : Type 0
Text = List ℕ

-- `s.split(c)[0]`, and the first part of `s.partition(c)`
unfoldable pub before : ℕ → Text → Text
before c [] = []
before c (d ∷ s) = let rest = before c s in if d == c then [] else d ∷ rest

-- The third part of `s.partition(c)`
unfoldable pub behind : ℕ → Text → Text
behind c [] = []
behind c (d ∷ s) = let rest = behind c s in if d == c then s else rest

-- `int(s)` of a text with no `-`, stripped; none is a ValueError.
unfoldable pub unsigned : Text → Option ℕ
unsigned [] = none
unsigned (c ∷ s) = if c == b'+' then number s else number (c ∷ s)

unfoldable pub signed : Text → Option ℤ
unfolding unsigned
signed [] = none
signed (c ∷ s) =
    if c == b'-' then Option.map negated (number s) else Option.map pos (unsigned (c ∷ s))

-- `total - 1`
unfoldable pub last_byte : ℕ → ℤ
last_byte zero = negsuc 0
last_byte (suc n) = pos n

-- `min(end, total - 1)`
unfoldable pub clamp : ℤ → ℕ → ℤ
clamp (pos n) zero = negsuc 0
clamp (pos n) (suc total) = pos (min n total)
clamp (negsuc n) total = negsuc n

-- `max(0, total - n)`
unfoldable pub suffix_start : ℕ → ℤ → ℕ
suffix_start total (pos n) = total - n
suffix_start total (negsuc n) = total + suc n

-- `int(end_s) if end_s else total - 1`
unfoldable pub end_of : Text → ℕ → Option ℤ
unfolding signed last_byte
end_of [] total = some (last_byte total)
end_of (c ∷ s) total = signed (strip (c ∷ s))

unfoldable pub clamped : Option ℕ → Option ℤ → ℕ → Option (ℕ × ℤ)
unfolding clamp
clamped (some start) (some end) total = some (start, clamp end total)
clamped _ _ total = none

-- The texts before and behind the first `-`. The one before holds none, so the start is no negative
-- number.
unfoldable pub parse_ends : Text → Text → ℕ → Option (ℕ × ℤ)
unfolding signed unsigned suffix_start last_byte clamped end_of
parse_ends [] end_s total =
    Option.map (λ n. (suffix_start total n, last_byte total)) (signed (strip end_s))
parse_ends (c ∷ start_s) end_s total =
    clamped (unsigned (strip (c ∷ start_s))) (end_of end_s total) total

unfoldable pub parse_spec : Text → ℕ → Option (ℕ × ℤ)
unfolding before behind parse_ends
parse_spec s total = parse_ends (before b'-' s) (behind b'-' s) total

abbrev pub range_prefix : Text
range_prefix = codes "bytes="

unfoldable pub parse_after : Option Text → ℕ → Option (ℕ × ℤ)
unfolding last_byte parse_spec before
parse_after none total = some (0, last_byte total)
parse_after (some spec) total = parse_spec (strip (before b',' spec)) total

-- The header, if there is one. An empty header has no prefix either.
unfoldable pub parse_range : Option Text → ℕ → Option (ℕ × ℤ)
unfolding parse_after
parse_range none total = some (0, last_byte total)
parse_range (some header) total = parse_after (after_prefix range_prefix header) total

-- `end - start + 1`
unfoldable pub content_length : ℕ → ℤ → ℤ
content_length start (pos end) =
    if leb start (suc end) then pos (suc end - start) else negated (start - suc end)
content_length start (negsuc n) = negated (start + n)

-- The announced length, and the body.
pub data Response : Type 0 where
  value_error : Response
  response : ℤ → Served → Response

-- Nothing is read for an end below 0.
unfoldable pub body : Plan → ℕ → ℤ → List Answer → Served
body p start (pos end) answers = wait_and_read (record p { last = end }) start answers
body p start (negsuc n) answers = record { chunks = []; boosts = []; ending = Ending.complete }

unfoldable pub respond : Plan → Option (ℕ × ℤ) → List Answer → Response
unfolding content_length body
respond p none answers = value_error
respond p (some (start, end)) answers =
    response (content_length start end) (body p start end answers)

-- A GET of a file of `total` bytes; `last` of the plan is set by the range.
unfoldable pub serve_range : Plan → Option Text → ℕ → List Answer → Response
unfolding parse_range respond
serve_range p header total answers = respond p (parse_range header total) answers
