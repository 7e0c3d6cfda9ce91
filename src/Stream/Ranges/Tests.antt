-- ===== src/Stream/Ranges/Tests.antt =====
-- Ranges of a file of 100 bytes, and the theorems at them.
use stremio_libtorrent_serve.Base.{
  ◌∷◌, ◌≡◌, refl, List, [], ◌++◌, none, some, arith, codes, pos, negsuc, negated, number,
  strip_start, strip_end, strip, after_prefix, is_digit, is_blank, is_empty, all_codes, print,
  print_digits, number_from, count_digits,
}
use stremio_libtorrent_serve.Stream.Serving.{Plan, Answer, Served}
use stremio_libtorrent_serve.Stream.Ranges.{
  before, behind, unsigned, signed, last_byte, clamp, suffix_start, end_of, clamped, parse_ends,
  parse_spec, parse_after, parse_range, response, serve_range,
}
use stremio_libtorrent_serve.Stream.Ranges.Body.{Kept, serve_range-Kept}
use stremio_libtorrent_serve.Stream.Ranges.Written.{asking, parse_range-asking}
use stremio_libtorrent_serve.Stream.Ranges.PastEnd.{serve_range_past_end}

program : Unit {0}
unfolding before behind unsigned signed last_byte clamp suffix_start end_of clamped parse_ends
    parse_spec parse_after parse_range number strip_start strip_end strip after_prefix is_digit
    is_blank is_empty all_codes number_from count_digits negated
program = tt

first_ten : parse_range (some (codes "bytes=0-9")) 100 ≡ some (0, pos 9)
unfolding program
first_ten = refl

spaced : parse_range (some (codes "bytes= 5 - +1_0 ,20-30")) 100 ≡ some (5, pos 10)
unfolding program
spaced = refl

last_ten : parse_range (some (codes "bytes=-10")) 100 ≡ some (90, pos 99)
unfolding program
last_ten = refl

clamped_end : parse_range (some (codes "bytes=50-500")) 100 ≡ some (50, pos 99)
unfolding program
clamped_end = refl

negative_end : parse_range (some (codes "bytes=5--3")) 100 ≡ some (5, negsuc 2)
unfolding program
negative_end = refl

malformed : parse_range (some (codes "bytes=-")) 100 ≡ none
unfolding program
malformed = refl

other_unit : parse_range (some (codes "items=1-2")) 100 ≡ some (0, pos 99)
unfolding program
other_unit = refl

abbrev plan : Plan
plan = record {
  plen = 10;
  base = 5;
  total = 20;
  window = 4;
  last = 0;
  chunk = 8;
  offset = 0;
  step = 50;
}

abbrev arriving : List Answer
arriving = Answer.present 8 ∷ Answer.present 8 ∷ Answer.present 8 ∷ []

serve_range-Kept_example : Kept 100 (serve_range plan (some (codes "bytes=90-500")) 100 arriving)
serve_range-Kept_example =
    serve_range-Kept plan (some (codes "bytes=90-500")) 100 arriving (omega arith)

parse_range-asking_example :
    (parse_range (asking (print 20 ++ b'-' ∷ print 500) none) 100 ≡ some (20, clamp (pos 500) 100))
    × (parse_range (asking (print 20 ++ b'-' ∷ []) none) 100 ≡ some (20, last_byte 100))
    × (parse_range (asking (b'-' ∷ print 500) none) 100 ≡ some (0, last_byte 100))
unfolding print print_digits
parse_range-asking_example = parse_range-asking 20 500 100 none (omega arith) (omega arith)

serve_range_past_end_example :
    (s : Served) × (serve_range plan (asking (print 500 ++ b'-' ∷ []) none) 100 arriving
      ≡ response (negated 400) s)
    × (s.chunks ≡ [])
unfolding print print_digits
serve_range_past_end_example =
    serve_range_past_end plan 500 100 arriving (omega arith) (omega arith)
