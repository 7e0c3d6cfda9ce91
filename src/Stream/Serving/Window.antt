-- ===== src/Stream/Serving/Window.antt =====
-- The window of pieces that are rushed ahead of the reader.
use stremio_libtorrent_serve.Base.{
  ℕ, zero, suc, ◌+◌, ◌-◌, ◌≤◌, ◌<◌, ◌≡◌, refl, ap, subst, ◌⊎◌, inl, inr, min, max, List, [], ◌∷◌,
  ◌++◌, arith, ltb, Bool-cases,
}
use stremio_libtorrent_serve.Stream.Serving.{
  Plan, Reader, first_reader, Answer, Served, piece_at, window_end, boost_from, slide, read_bytes,
  advance, ended, yield_chunk, round, serve, wait_and_read,
}

-- The boosted pieces are consecutive from the given one, below the bound.
abbrev pub Consecutive : ℕ → ℕ → List (ℕ × ℕ) → Type 0
Consecutive bound piece [] = Unit {0}
Consecutive bound piece ((q, deadline) ∷ boosts) =
    (q ≡ piece) × (q < bound) × Consecutive bound (suc piece) boosts

boost_from-Consecutive :
    (p : Plan) (gp count piece bound : ℕ) (rest : List (ℕ × ℕ))
    → (piece + count ≤ bound) ⊎ (count ≡ 0)
    → Consecutive bound (piece + count) rest
    → Consecutive bound piece (boost_from p gp count piece ++ rest)
unfolding boost_from
boost_from-Consecutive p gp zero piece bound rest b c =
    subst (λ n. Consecutive bound n rest) (let e : piece + 0 ≡ piece = omega arith in e) c
boost_from-Consecutive p gp (suc count) piece bound rest (inr e) c = absurd (omega (arith, e))
boost_from-Consecutive p gp (suc count) piece bound rest (inl b) c = (
  refl,
  omega (arith, b),
  boost_from-Consecutive p gp count (suc piece) bound rest (inl (omega (arith, b))) (
      subst (λ n. Consecutive bound n rest)
        (let e : piece + suc count ≡ suc piece + count = omega arith in e) c),
)

slide-Consecutive :
    (p : Plan) (r : Reader) (rest : List (ℕ × ℕ))
    → Consecutive p.total (max r.next (window_end p r.pos)) rest
    → Consecutive p.total r.next (slide p r ++ rest)
unfolding slide window_end
slide-Consecutive p r rest c =
    let w = min (suc (piece_at p r.pos + p.window)) p.total in
    let e : max r.next w ≡ r.next + (w - r.next) = omega arith in
    boost_from-Consecutive p (piece_at p r.pos) (w - r.next) r.next p.total rest (ground arith)
      (subst (λ n. Consecutive p.total n rest) e c)

append-nil : (l : List (ℕ × ℕ)) → l ++ [] ≡ l
append-nil [] = refl
append-nil (x ∷ l) = ap (◌∷◌ x) (append-nil l)

slide-alone : (p : Plan) (r : Reader) → Consecutive p.total r.next (slide p r)
slide-alone p r =
    subst (Consecutive p.total r.next) (append-nil (slide p r)) (slide-Consecutive p r [] tt)

yield_chunk-Consecutive :
    (p : Plan) (r : Reader) (n : ℕ) (rest : Served)
    → Consecutive p.total (max r.next (window_end p r.pos)) rest.boosts
    → Consecutive p.total r.next (yield_chunk p r n rest).boosts
unfolding yield_chunk ended
yield_chunk-Consecutive p r zero rest c = slide-alone p r
yield_chunk-Consecutive p r (suc n) rest c = slide-Consecutive p r rest.boosts c

round-Consecutive :
    (p : Plan) (r : Reader) (a : Answer) (rest : Served)
    → Consecutive p.total (advance p r a).next rest.boosts
    → Consecutive p.total r.next (round p r a rest).boosts
unfolding round ended advance
round-Consecutive p r Answer.missing rest c = slide-alone p r
round-Consecutive p r Answer.fault rest c = slide-alone p r
round-Consecutive p r (Answer.present k) rest c =
    yield_chunk-Consecutive p r (read_bytes p r.pos (Answer.present k)) rest c

serve-Consecutive :
    (p : Plan) (r : Reader) (answers : List Answer)
    → Consecutive p.total r.next (serve p r answers).boosts
unfolding serve ended
serve-Consecutive p r [] = tt
serve-Consecutive p r (a ∷ answers) =
    let c = round-Consecutive p r a _ (serve-Consecutive p (advance p r a) answers) in
    elim (Bool-cases (ltb p.last r.pos)) [ inl e ↦ rw (e, serve) tt | inr e ↦ rw (e, serve) c ]

-- The pieces that a stream rushes are consecutive from that of its first byte, so that none is
-- skipped and none rushed twice, and all are pieces of the torrent.
pub wait_and_read-Consecutive :
    (p : Plan) (start : ℕ) (answers : List Answer)
    → Consecutive p.total (piece_at p start) (wait_and_read p start answers).boosts
unfolding wait_and_read first_reader piece_at
wait_and_read-Consecutive p start answers = serve-Consecutive p (first_reader p start) answers
