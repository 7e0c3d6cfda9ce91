-- ===== src/Stream/Ranges/Body.antt =====
-- The body of an answer to a range, its length and its place in the file.
use mathlib.Core.Option
use stremio_libtorrent_serve.Base.{
  ℕ, zero, suc, ◌+◌, ◌-◌, ◌≤◌, ◌<◌, ◌≡◌, refl, inl, inr, List, [], ◌∷◌, Option, none, some, arith,
  ltb, leb, Bool-cases, ℤ, pos, negsuc, negated,
}
use stremio_libtorrent_serve.Stream.Serving.{
  Plan, Reader, first_reader, Answer, Ending, Served, read_bytes, advance, ended, yield_chunk,
  round, serve, wait_and_read,
}
use stremio_libtorrent_serve.Stream.Serving.Verified.{Chunks, wait_and_read-Chunks, sent}
use stremio_libtorrent_serve.Stream.Ranges.{
  Text, last_byte, clamp, suffix_start, end_of, clamped, parse_ends, parse_spec, parse_after,
  parse_range, content_length, Response, value_error, response, body, respond, serve_range,
}

-- The end that a range has in a file of so many bytes.
abbrev Ends : ℤ → ℕ → Type 0
Ends (pos end) total = end < total
Ends (negsuc n) total = Unit {0}

abbrev EndsInside : Option (ℕ × ℤ) → ℕ → Type 0
EndsInside none total = Unit {0}
EndsInside (some (start, end)) total = Ends end total

last_byte-Ends : (total : ℕ) → Ends (last_byte total) total
unfolding last_byte
last_byte-Ends zero = tt
last_byte-Ends (suc n) = omega arith

clamp-Ends : (end : ℤ) (total : ℕ) → Ends (clamp end total) total
unfolding clamp
clamp-Ends (pos n) zero = tt
clamp-Ends (pos n) (suc total) = omega arith
clamp-Ends (negsuc n) total = tt

clamped-Ends : (s : Option ℕ) (e : Option ℤ) (total : ℕ) → EndsInside (clamped s e total) total
unfolding clamped
clamped-Ends none e total = tt
clamped-Ends (some s) none total = tt
clamped-Ends (some s) (some e) total = clamp-Ends e total

suffix-Ends :
    (n : Option ℤ) (total : ℕ)
    → EndsInside (Option.map (λ n. (suffix_start total n, last_byte total)) n) total
suffix-Ends none total = tt
suffix-Ends (some n) total = last_byte-Ends total

parse_ends-Ends : (s t : Text) (total : ℕ) → EndsInside (parse_ends s t total) total
unfolding parse_ends
parse_ends-Ends [] t total = suffix-Ends _ total
parse_ends-Ends (c ∷ s) t total = clamped-Ends _ (end_of t total) total

parse_after-Ends : (spec : Option Text) (total : ℕ) → EndsInside (parse_after spec total) total
unfolding parse_after parse_spec
parse_after-Ends none total = last_byte-Ends total
parse_after-Ends (some spec) total = parse_ends-Ends _ _ total

parse_range-Ends : (header : Option Text) (total : ℕ) → EndsInside (parse_range header total) total
unfolding parse_range
parse_range-Ends none total = last_byte-Ends total
parse_range-Ends (some header) total = parse_after-Ends _ total

-- No chunk goes beyond so many bytes.
abbrev pub Within : ℕ → List (ℕ × ℕ) → Type 0
Within total [] = Unit {0}
Within total ((q, n) ∷ chunks) = (q + n ≤ total) × Within total chunks

Chunks-Within :
    (p : Plan) (start total : ℕ) (chunks : List (ℕ × ℕ))
    → p.last < total
    → Chunks p start chunks
    → Within total chunks
Chunks-Within p start total [] h c = tt
Chunks-Within p start total ((q, n) ∷ chunks) h (e, some_bytes, inside, low, high, rest) =
    (omega arith, Chunks-Within p (start + n) total chunks h rest)

Chunks-sent :
    (p : Plan) (start : ℕ) (chunks : List (ℕ × ℕ))
    → Chunks p start chunks
    → sent chunks ≤ suc p.last - start
Chunks-sent p start [] c = omega arith
Chunks-sent p start ((q, n) ∷ chunks) (e, some_bytes, inside, low, high, rest) =
    omega (arith, Chunks-sent p (start + n) chunks rest)

-- A stream that comes to its end has sent the range.
abbrev Sent : Plan → ℕ → Served → Type 0
Sent p start s = s.ending ≡ Ending.complete → suc p.last ≤ start + sent s.chunks

yield_chunk-Sent :
    (p : Plan) (r : Reader) (n : ℕ) (rest : Served)
    → Sent p (r.pos + n) rest
    → Sent p r.pos (yield_chunk p r n rest)
unfolding yield_chunk ended
yield_chunk-Sent p r zero rest s e = absurd (ground (arith, e))
yield_chunk-Sent p r (suc n) rest s e = omega (arith, s e)

round-Sent :
    (p : Plan) (r : Reader) (a : Answer) (rest : Served)
    → Sent p (advance p r a).pos rest
    → Sent p r.pos (round p r a rest)
unfolding round ended advance
round-Sent p r Answer.missing rest s e = absurd (ground (arith, e))
round-Sent p r Answer.fault rest s e = absurd (ground (arith, e))
round-Sent p r (Answer.present k) rest s e =
    yield_chunk-Sent p r (read_bytes p r.pos (Answer.present k)) rest s e

serve-Sent : (p : Plan) (r : Reader) (answers : List Answer) → Sent p r.pos (serve p r answers)
unfolding serve ended
serve-Sent p r [] = elim (Bool-cases (ltb p.last r.pos)) [
  | inl t ↦ rw t (λ e. ground (arith, t))
  | inr f ↦ rw f (λ e. absurd (ground (arith, e)))
]
serve-Sent p r (a ∷ answers) = elim (Bool-cases (ltb p.last r.pos)) [
  | inl t ↦ rw (t, serve) (λ e. ground (arith, t))
  | inr f ↦ rw (f, serve) (round-Sent p r a _ (serve-Sent p (advance p r a) answers))
]

wait_and_read-Sent :
    (p : Plan) (start : ℕ) (answers : List Answer) → Sent p start (wait_and_read p start answers)
unfolding wait_and_read first_reader
wait_and_read-Sent p start answers = serve-Sent p (first_reader p start) answers

-- How many bytes are announced; a length below 0 announces none.
abbrev pub announced : ℤ → ℕ
announced (pos n) = n
announced (negsuc n) = 0

announced-negated : (n : ℕ) → announced (negated n) ≡ 0
unfolding negated
announced-negated zero = refl
announced-negated (suc n) = refl

announced-content_length :
    (start end : ℕ) → announced (content_length start (pos end)) ≡ suc end - start
unfolding content_length
announced-content_length start end = elim (Bool-cases (leb start (suc end))) [
  | inl t ↦ rw t refl
  | inr f ↦ rw f (rw (announced-negated (start - suc end)) (ground (arith, f)))
]

-- What an answer is to keep to, for a file of so many bytes.
abbrev pub Kept : ℕ → Response → Type 0
Kept total value_error = Unit {0}
Kept total (response length s) =
    Within total s.chunks
    × (sent s.chunks ≤ announced length)
    × (s.ending ≡ Ending.complete → sent s.chunks ≡ announced length)

body-Kept :
    (p : Plan) (start : ℕ) (end : ℤ) (total : ℕ) (answers : List Answer)
    → 0 < p.plen
    → Ends end total
    → Kept total (response (content_length start end) (body p start end answers))
unfolding body
body-Kept p start (pos end) total answers h inside =
    let q = record p { last = end } in
    let c = wait_and_read-Chunks q start answers h in
    let length = announced-content_length start end in
    let bound = Chunks-sent q start _ c in
    let whole = wait_and_read-Sent q start answers in
    (
      Chunks-Within q start total _ inside c,
      omega (arith, length, bound),
      λ e. omega (arith, length, bound, whole e),
    )
body-Kept p start (negsuc n) total answers h inside =
    let length : announced (content_length start (negsuc n)) ≡ 0 =
      unfold content_length in announced-negated (start + n) in
    (tt, omega arith, λ e. omega (arith, length))

respond-Kept :
    (p : Plan) (range : Option (ℕ × ℤ)) (total : ℕ) (answers : List Answer)
    → 0 < p.plen
    → EndsInside range total
    → Kept total (respond p range answers)
unfolding respond
respond-Kept p none total answers h inside = tt
respond-Kept p (some (start, end)) total answers h inside =
    body-Kept p start end total answers h inside

-- Whatever range a client asks for, and however pieces arrive: no byte beyond the end of the file is
-- sent, no more bytes than the answer announces, and exactly those where the stream comes to its end.
pub serve_range-Kept :
    (p : Plan) (header : Option Text) (total : ℕ) (answers : List Answer)
    → 0 < p.plen
    → Kept total (serve_range p header total answers)
unfolding serve_range
serve_range-Kept p header total answers h =
    respond-Kept p (parse_range header total) total answers h (parse_range-Ends header total)
