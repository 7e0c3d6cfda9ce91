-- ===== src/Stream/Serving/Verified.antt =====
-- The bytes that are sent: their order, the range and the pieces.
use native.Mathlib.Nat.{div-mul-le_self, lt-div-mul-add}
use stremio_libtorrent_serve.Base.{
  ℕ, zero, suc, ◌+◌, ◌*◌, ◌≤◌, ◌<◌, ◌≡◌, refl, inl, inr, true, List, [], ◌∷◌, length, arith, ltb,
  Bool-cases,
}
use stremio_libtorrent_serve.Stream.Serving.{
  Plan, Reader, first_reader, Answer, Ending, Served, piece_at, wanted_bytes, read_bytes, advance,
  ended, yield_chunk, round, serve, wait_and_read,
}

-- Chunks from the position on: none is empty, each begins where the one before ended, none goes
-- beyond the range, and none leaves the piece that it begins in.
abbrev pub Chunks : Plan → ℕ → List (ℕ × ℕ) → Type 0
Chunks p pos [] = Unit {0}
Chunks p pos ((q, n) ∷ chunks) =
    (q ≡ pos)
    × (0 < n)
    × (q + n ≤ suc p.last)
    × (piece_at p q * p.plen ≤ p.base + q)
    × (p.base + q + n ≤ piece_at p q * p.plen + p.plen)
    × Chunks p (pos + n) chunks

read-bounds :
    (p : Plan) (pos n : ℕ) (a : Answer)
    → 0 < p.plen
    → read_bytes p pos a ≡ suc n
    → (pos + suc n ≤ suc p.last)
      × (piece_at p pos * p.plen ≤ p.base + pos)
      × (p.base + pos + suc n ≤ piece_at p pos * p.plen + p.plen)
unfolding read_bytes wanted_bytes piece_at
read-bounds p pos n Answer.missing h e = absurd (omega (arith, e))
read-bounds p pos n Answer.fault h e = absurd (omega (arith, e))
read-bounds p pos n (Answer.present k) h e =
    let low = div-mul-le_self (p.base + pos) p.plen in
    let high = lt-div-mul-add {a = p.base + pos} {b = p.plen} h in
    (omega (arith, e), low, omega (arith, e, low, high))

yield_chunk-Chunks :
    (p : Plan) (r : Reader) (a : Answer) (n : ℕ) (rest : Served)
    → 0 < p.plen
    → read_bytes p r.pos a ≡ n
    → Chunks p (r.pos + n) rest.chunks
    → Chunks p r.pos (yield_chunk p r n rest).chunks
unfolding yield_chunk ended
yield_chunk-Chunks p r a zero rest h e c = tt
yield_chunk-Chunks p r a (suc n) rest h e c =
    let b = read-bounds p r.pos n a h e in (refl, omega arith, b.0, b.1, b.2, c)

round-Chunks :
    (p : Plan) (r : Reader) (a : Answer) (rest : Served)
    → 0 < p.plen
    → Chunks p (advance p r a).pos rest.chunks
    → Chunks p r.pos (round p r a rest).chunks
unfolding round ended advance
round-Chunks p r Answer.missing rest h c = tt
round-Chunks p r Answer.fault rest h c = tt
round-Chunks p r (Answer.present k) rest h c =
    yield_chunk-Chunks p r (Answer.present k) (read_bytes p r.pos (Answer.present k)) rest h refl c

serve-Chunks :
    (p : Plan) (r : Reader) (answers : List Answer)
    → 0 < p.plen
    → Chunks p r.pos (serve p r answers).chunks
unfolding serve ended
serve-Chunks p r [] h = tt
serve-Chunks p r (a ∷ answers) h =
    let c = round-Chunks p r a _ h (serve-Chunks p (advance p r a) answers h) in
    elim (Bool-cases (ltb p.last r.pos)) [ inl e ↦ rw (e, serve) tt | inr e ↦ rw (e, serve) c ]

-- However pieces arrive and reads go: what is sent is consecutive from the start of the range, never
-- beyond its end, and no chunk reaches beyond the piece whose arrival it waited for.
pub wait_and_read-Chunks :
    (p : Plan) (start : ℕ) (answers : List Answer)
    → 0 < p.plen
    → Chunks p start (wait_and_read p start answers).chunks
unfolding wait_and_read first_reader
wait_and_read-Chunks p start answers h = serve-Chunks p (first_reader p start) answers h

-- How many bytes the chunks have.
abbrev pub sent : List (ℕ × ℕ) → ℕ
sent [] = 0
sent ((q, n) ∷ chunks) = n + sent chunks

-- Every piece arrives, and at least a byte of it can be read.
abbrev pub Arriving : List Answer → Type 0
Arriving [] = Unit {0}
Arriving (Answer.present k ∷ answers) = (0 < k) × Arriving answers
Arriving (_ ∷ answers) = ⊥

wanted-positive :
    (p : Plan) (pos : ℕ) → 0 < p.plen → 0 < p.chunk → pos ≤ p.last → 0 < wanted_bytes p pos
unfolding wanted_bytes piece_at
wanted-positive p pos h c b =
    let high = lt-div-mul-add {a = p.base + pos} {b = p.plen} h in omega (arith, high)

read-range :
    (p : Plan) (pos k : ℕ)
    → 0 < p.plen
    → 0 < p.chunk
    → 0 < k
    → pos ≤ p.last
    → (0 < read_bytes p pos (Answer.present k))
      × (pos + read_bytes p pos (Answer.present k) ≤ suc p.last)
unfolding read_bytes wanted_bytes piece_at
read-range p pos k h c a b =
    let high = lt-div-mul-add {a = p.base + pos} {b = p.plen} h in
    (omega (arith, high), omega (arith, high))

yield_chunk-complete :
    (p : Plan) (r : Reader) (n : ℕ) (rest : Served)
    → 0 < n
    → rest.ending ≡ Ending.complete
    → r.pos + n + sent rest.chunks ≡ suc p.last
    → ((yield_chunk p r n rest).ending ≡ Ending.complete)
      × (r.pos + sent (yield_chunk p r n rest).chunks ≡ suc p.last)
unfolding yield_chunk
yield_chunk-complete p r zero rest h e s = absurd (omega (arith, h))
yield_chunk-complete p r (suc n) rest h e s = (e, omega (arith, s))

serve-complete :
    (p : Plan) (r : Reader) (answers : List Answer)
    → 0 < p.plen
    → 0 < p.chunk
    → Arriving answers
    → suc p.last ≤ r.pos + length answers
    → r.pos ≤ suc p.last
    → ((serve p r answers).ending ≡ Ending.complete)
      × (r.pos + sent (serve p r answers).chunks ≡ suc p.last)
unfolding serve ended round yield_chunk advance
serve-complete p r [] h c arriving enough b =
    let e : ltb p.last r.pos ≡ true = ground (arith, enough) in
    rw (e, serve) (refl, omega (arith, enough))
serve-complete p r (Answer.missing ∷ answers) h c arriving enough b = absurd arriving
serve-complete p r (Answer.fault ∷ answers) h c arriving enough b = absurd arriving
serve-complete p r (Answer.present k ∷ answers) h c arriving enough b =
    elim (Bool-cases (ltb p.last r.pos)) [
      | inl e ↦ rw (e, serve) (refl, ground (arith, e, b))
      | inr e ↦
          let a = Answer.present k in
          let here : r.pos ≤ p.last = ground (arith, e) in
          let range = read-range p r.pos k h c arriving.0 here in
          let rest =
            serve-complete p (advance p r a) answers h c arriving.1 (omega (arith, range.0, enough))
              range.1 in
          rw (e, serve)
            (yield_chunk-complete p r (read_bytes p r.pos a) (serve p (advance p r a) answers)
              range.0 rest.0 rest.1)
    ]

-- Where every piece arrives in its time and each read returns something, the whole range is sent, and
-- it takes no more reads than the range has bytes.
pub wait_and_read-complete :
    (p : Plan) (start : ℕ) (answers : List Answer)
    → 0 < p.plen
    → 0 < p.chunk
    → start ≤ suc p.last
    → Arriving answers
    → suc p.last ≤ start + length answers
    → ((wait_and_read p start answers).ending ≡ Ending.complete)
      × (start + sent (wait_and_read p start answers).chunks ≡ suc p.last)
unfolding wait_and_read first_reader
wait_and_read-complete p start answers h c b arriving enough =
    serve-complete p (first_reader p start) answers h c arriving enough b
