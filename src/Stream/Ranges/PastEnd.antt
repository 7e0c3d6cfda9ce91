-- ===== src/Stream/Ranges/PastEnd.antt =====
-- A range that starts behind the end of the file.
use stremio_libtorrent_serve.Base.{
  ℕ, zero, suc, ◌-◌, ◌<◌, ◌≡◌, refl, ap, ◌∙◌, true, false, List, [], ◌∷◌, ◌++◌, none, arith, ltb,
  leb, negated, print,
}
use stremio_libtorrent_serve.Stream.Serving.{
  Plan, Reader, first_reader, Answer, Served, ended, serve, wait_and_read,
}
use stremio_libtorrent_serve.Stream.Ranges.{
  response, last_byte, content_length, body, respond, serve_range,
}
use stremio_libtorrent_serve.Stream.Ranges.Written.{asking, IsShort, parse_range-asking}

serve-behind :
    (p : Plan) (r : Reader) (answers : List Answer)
    → p.last < r.pos
    → (serve p r answers).chunks ≡ []
unfolding serve ended
serve-behind p r [] h = refl
serve-behind p r (a ∷ answers) h = let e : ltb p.last r.pos ≡ true = ground (arith, h) in rw e refl

body-behind :
    (p : Plan) (start total : ℕ) (answers : List Answer)
    → total < start
    → (body p start (last_byte total) answers).chunks ≡ []
unfolding body last_byte wait_and_read first_reader
body-behind p start zero answers h = refl
body-behind p start (suc n) answers h =
    serve-behind (record p { last = n }) (first_reader (record p { last = n }) start) answers
      (omega arith)

content_length-behind :
    (start total : ℕ)
    → total < start
    → content_length start (last_byte total) ≡ negated (start - total)
unfolding content_length last_byte
content_length-behind start zero h = ap negated (omega arith)
content_length-behind start (suc n) h =
    let e : leb start (suc n) ≡ false = ground (arith, h) in rw e refl

-- A range from behind the end of the file is answered, with nothing, and the announced length is
-- negative: what the start is beyond the file's size.
pub serve_range_past_end :
    (p : Plan) (a total : ℕ) (answers : List Answer)
    → IsShort a
    → total < a
    → (s : Served) × (serve_range p (asking (print a ++ b'-' ∷ []) none) total answers
        ≡ response (negated (a - total)) s)
      × (s.chunks ≡ [])
unfolding serve_range respond
serve_range_past_end p a total answers short h = (
  body p a (last_byte total) answers,
  ap (λ range. respond p range answers) (parse_range-asking a a total none short short).1
      ∙ ap (λ n. response n (body p a (last_byte total) answers)) (content_length-behind a total h),
  body-behind p a total answers h,
)
