-- ===== src/Torrent/Trackers/Reading.antt =====
-- A list of trackers that was read, written one to a line and read again.
use mathlib.Core.List.{append-nil}
use stremio_libtorrent_serve.Base.{
  ℕ, ◌≡◌, refl, sym, ap, ◌∙◌, ◌⊎◌, inl, inr, Bool, true, false, not, ◌&&◌, ◌||◌, List, [], ◌∷◌,
  ◌++◌, arith, codes, codes_key, contains, is_blank, Bool-cases, strip_start, is_empty, strip_end,
  strip,
}
use stremio_libtorrent_serve.Torrent.Trackers.{
  Text, is_separator, starts_separator, pieces, has_prefix, is_tracker_url, collect,
  parse_tracker_string,
}
use stremio_libtorrent_serve.Torrent.Trackers.Collecting.{
  Fresh, collect-Fresh, Pass, collect-Pass, collect-all,
}

-- No separator in a text.
abbrev pub Solid : Text → Type 0
Solid [] = Unit
Solid (c ∷ t) = (is_separator c ≡ false) × Solid t

abbrev pub AllSolid : List Text → Type 0
AllSolid [] = Unit
AllSolid (t ∷ ts) = Solid t × AllSolid ts

-- `"\n".join(trackers) + "\n"`
unfoldable pub write_lines : List Text → Text
write_lines [] = []
write_lines (t ∷ ts) = t ++ 10 ∷ write_lines ts

-- What `parse_tracker_string` returns.
pub record IsRead (ts : List Text) : Type 0 where
  pub urls : Pass is_tracker_url ts
  pub fresh : Fresh [] ts
  pub solid : AllSolid ts

pieces-Solid : (s : Text) → Solid (pieces s).0 × AllSolid (pieces s).1
unfolding pieces
pieces-Solid [] = (tt, tt)
pieces-Solid (c ∷ s) = elim (Bool-cases (is_separator c)) [
  | inl e ↦ ground (arith, e, pieces-Solid s)
  | inr e ↦ ground (arith, e, pieces-Solid s)
]

collect-solid :
    (keep : Text → Bool) (seen ts : List Text) → AllSolid ts → AllSolid (collect keep seen ts)
unfolding collect
collect-solid keep seen [] h = tt
collect-solid keep seen (t ∷ ts) h = elim (Bool-cases (keep t && not (contains t seen))) [
  | inl e ↦ rw e (h.0, collect-solid keep (t ∷ seen) ts h.1)
  | inr e ↦ rw e (collect-solid keep seen ts h.1)
]

pub parse_tracker_string-IsRead : (raw : Text) → IsRead (parse_tracker_string raw)
unfolding parse_tracker_string
parse_tracker_string-IsRead raw =
    let (p, ps) = pieces (strip raw) in
    record {
      urls = collect-Pass is_tracker_url [] (p ∷ ps);
      fresh = collect-Fresh is_tracker_url [] (p ∷ ps);
      solid = collect-solid is_tracker_url [] (p ∷ ps) (pieces-Solid (strip raw));
    }

-- The lines with no end to the last one.
join_lines : Text → List Text → Text
join_lines t [] = t
join_lines t (u ∷ us) = t ++ 10 ∷ join_lines u us

-- A URL starts with a letter.
abbrev Starts : Text → Type 0
Starts [] = ⊥
Starts (c ∷ t) = is_separator c ≡ false

has_prefix-first :
    (p : ℕ) (ps : Text) (c : ℕ) (t : Text) → has_prefix (p ∷ ps) (c ∷ t) ≡ true → c ≡ p
unfolding has_prefix
has_prefix-first p ps c t h = ground arith

or_true : (a b : Bool) → a || b ≡ true → (a ≡ true) ⊎ (b ≡ true)
or_true true b h = inl refl
or_true false b h = inr h

or_false : (a b : Bool) → a || b ≡ false → a ≡ false
or_false true b h = h
or_false false b h = refl

first_letter :
    (c : ℕ) (t : Text) → is_tracker_url (c ∷ t) ≡ true → (c ≡ b'u') ⊎ (c ≡ b'h') ⊎ (c ≡ b'w')
unfolding is_tracker_url
first_letter c t h = elim (or_true _ _ h) [
  | inr e ↦ inr (inr (has_prefix-first b'w' (codes "ss://") c t e))
  | inl k ↦ elim (or_true _ _ k) [
    | inr e ↦ inr (inr (has_prefix-first b'w' (codes "s://") c t e))
    | inl l ↦ elim (or_true _ _ l) [
      | inr e ↦ inr (inl (has_prefix-first b'h' (codes "ttps://") c t e))
      | inl m ↦ elim (or_true _ _ m) [
        | inr e ↦ inr (inl (has_prefix-first b'h' (codes "ttp://") c t e))
        | inl e ↦ inl (has_prefix-first b'u' (codes "dp://") c t e)
      ]
    ]
  ]
]

url-Starts : (t : Text) → is_tracker_url t ≡ true → Starts t
url-Starts [] h = unfold is_tracker_url has_prefix in cc
url-Starts (c ∷ t) h =
    unfold is_separator in
    elim (first_letter c t h) [
      | inl e ↦ rw e refl
      | inr k ↦ elim k [ inl e ↦ rw e refl | inr e ↦ rw e refl ]
    ]

solid-blank : (c : ℕ) → is_separator c ≡ false → is_blank c ≡ false
unfolding is_separator
solid-blank c h = or_false _ _ h

strip_end-Solid : (t rest : Text) → Solid t → strip_end (t ++ rest) ≡ t ++ strip_end rest
unfolding strip_end
strip_end-Solid [] rest h = refl
strip_end-Solid (c ∷ t) rest h = rw (solid-blank c h.0, strip_end-Solid t rest h.1) refl

join_lines-Starts : (t : Text) (ts : List Text) → Starts t → Starts (join_lines t ts)
unfolding join_lines
join_lines-Starts [] ts h = absurd h
join_lines-Starts (c ∷ t) [] h = h
join_lines-Starts (c ∷ t) (u ∷ us) h = h

is_empty-Starts : (t : Text) → Starts t → is_empty t ≡ false
unfolding is_empty
is_empty-Starts [] h = absurd h
is_empty-Starts (c ∷ t) h = refl

starts_separator-Starts : (t : Text) → Starts t → starts_separator t ≡ false
unfolding starts_separator
starts_separator-Starts [] h = absurd h
starts_separator-Starts (c ∷ t) h = h

strip_start-Starts : (t : Text) → Starts t → strip_start t ≡ t
unfolding strip_start
strip_start-Starts [] h = absurd h
strip_start-Starts (c ∷ t) h = rw (solid-blank c h) refl

-- Each is a URL and solid.
abbrev Lines : List Text → Type 0
Lines [] = Unit
Lines (t ∷ ts) = (Solid t × Starts t) × Lines ts

Lines-of : (ts : List Text) → Pass is_tracker_url ts → AllSolid ts → Lines ts
Lines-of [] p s = tt
Lines-of (t ∷ ts) p s = ((s.0, url-Starts t p.0), Lines-of ts p.1 s.1)

write_lines-Starts : (t : Text) (ts : List Text) → Starts t → Starts (write_lines (t ∷ ts))
unfolding write_lines
write_lines-Starts [] ts h = absurd h
write_lines-Starts (c ∷ t) ts h = h

strip_end_line : (w : Text) → is_empty (strip_end w) ≡ false → strip_end (10 ∷ w) ≡ 10 ∷ strip_end w
unfolding strip_end is_blank
strip_end_line w h = rw h refl

strip_end-write_lines :
    (t : Text) (ts : List Text)
    → Lines (t ∷ ts)
    → strip_end (write_lines (t ∷ ts)) ≡ join_lines t ts
unfolding write_lines join_lines
strip_end-write_lines t [] h =
    strip_end-Solid t (10 ∷ []) h.0.0 ∙ (unfold strip_end is_blank is_empty in append-nil t)
strip_end-write_lines t (u ∷ us) h =
    let next = strip_end-write_lines u us h.1 in
    let filled = is_empty-Starts (join_lines u us) (join_lines-Starts u us h.1.0.1) in
    strip_end-Solid t (10 ∷ write_lines (u ∷ us)) h.0.0
    ∙ ap (λ r. t ++ r)
        (strip_end_line (write_lines (u ∷ us)) (ap is_empty next ∙ filled) ∙ ap (λ r. 10 ∷ r) next)

strip-write_lines :
    (t : Text) (ts : List Text) → Lines (t ∷ ts) → strip (write_lines (t ∷ ts)) ≡ join_lines t ts
unfolding strip
strip-write_lines t ts h =
    ap strip_end (strip_start-Starts (write_lines (t ∷ ts)) (write_lines-Starts t ts h.0.1))
    ∙ strip_end-write_lines t ts h

pieces-append :
    (t rest : Text) → Solid t → pieces (t ++ rest) ≡ (t ++ (pieces rest).0, (pieces rest).1)
unfolding pieces
pieces-append [] rest h = refl
pieces-append (c ∷ t) rest h = rw (h.0, pieces-append t rest h.1) refl

pieces_line :
    (w : Text) → starts_separator w ≡ false → pieces (10 ∷ w) ≡ ([], (pieces w).0 ∷ (pieces w).1)
unfolding pieces is_separator
pieces_line w h = rw h refl

pieces-join_lines :
    (t : Text) (ts : List Text) → Lines (t ∷ ts) → pieces (join_lines t ts) ≡ (t, ts)
unfolding join_lines
pieces-join_lines t [] h =
    ap pieces (sym (append-nil t))
    ∙ pieces-append t [] h.0.0
    ∙ (unfold pieces in ap (λ r. (r, [])) (append-nil t))
pieces-join_lines t (u ∷ us) h =
    let w = join_lines u us in
    let line = pieces_line w (starts_separator-Starts w (join_lines-Starts u us h.1.0.1)) in
    pieces-append t (10 ∷ w) h.0.0 ∙ rw (line, pieces-join_lines u us h.1, append-nil t) refl

-- A list that was read, written one to a line, is read as itself.
pub parse_tracker_string-write_lines :
    (ts : List Text) → IsRead ts → parse_tracker_string (write_lines ts) ≡ ts
unfolding parse_tracker_string write_lines
parse_tracker_string-write_lines [] r = unfold strip pieces collect is_tracker_url in refl
parse_tracker_string-write_lines (t ∷ ts) r =
    let lines = Lines-of (t ∷ ts) r.urls r.solid in
    ap (λ s. let (p, ps) = pieces s in collect is_tracker_url [] (p ∷ ps))
      (strip-write_lines t ts lines)
    ∙ ap (λ (q : Text × List Text). collect is_tracker_url [] (q.0 ∷ q.1))
        (pieces-join_lines t ts lines)
    ∙ collect-all is_tracker_url [] (t ∷ ts) r.urls r.fresh
