-- ===== src/Stream/Ranges/Written.antt =====
-- The three forms of a range, as a client writes them.
use stremio_libtorrent_serve.Base.{
  ℕ, zero, suc, ◌-◌, ◌≤◌, ◌≡◌, refl, ap, ◌∙◌, Bool, true, not, ◌||◌, [], ◌∷◌, ◌++◌, Option, none,
  some, arith, length, ◌==◌, is_digit, is_blank, all_codes, pos, number-print, print, print-digits,
  print_cases, max_digits, strip, strip-dark, after_prefix-append,
}
use stremio_libtorrent_serve.Stream.Ranges.{
  Text, before, behind, unsigned, signed, last_byte, clamp, suffix_start, end_of, clamped,
  parse_ends, parse_spec, range_prefix, parse_after, parse_range,
}

-- Other ranges behind a comma, which are not looked at.
abbrev pub further : Option Text → Text
further none = []
further (some t) = b',' ∷ t

abbrev pub asking : Text → Option Text → Option Text
asking spec others = some (range_prefix ++ (spec ++ further others))

all_codes-weak :
    (p q : ℕ → Bool)
    → ((c : ℕ) → p c ≡ true → q c ≡ true)
    → (s : Text) → all_codes p s ≡ true
    → all_codes q s ≡ true
unfolding all_codes
all_codes-weak p q w [] h = refl
all_codes-weak p q w (c ∷ s) h = ground (arith, h, w c, all_codes-weak p q w s)

all_codes-append :
    (p : ℕ → Bool) (s t : Text)
    → all_codes p s ≡ true
    → all_codes p t ≡ true
    → all_codes p (s ++ t) ≡ true
unfolding all_codes
all_codes-append p [] t h k = k
all_codes-append p (c ∷ s) t h k = ground (arith, h, all_codes-append p s t)

abbrev other_than : ℕ → ℕ → Bool
other_than c d = not (d == c)

before-append :
    (c : ℕ) (s t : Text)
    → all_codes (other_than c) s ≡ true
    → (before c (s ++ c ∷ t) ≡ s) × (behind c (s ++ c ∷ t) ≡ t) × (before c (s ++ []) ≡ s)
unfolding before behind all_codes
before-append c [] t h = (ground arith, ground arith, refl)
before-append c (d ∷ s) t h =
    let rest = before-append c s t (ground (arith, h)) in
    (ground (arith, h, rest.0), ground (arith, h, rest.1), ground (arith, h, rest.2))

before-further :
    (s : Text) (others : Option Text)
    → all_codes (other_than b',') s ≡ true
    → before b',' (s ++ further others) ≡ s
before-further s none h = (before-append b',' s [] h).2
before-further s (some t) h = (before-append b',' s t h).0

-- Digits and dashes.
abbrev is_spec : ℕ → Bool
is_spec c = is_digit c || c == b'-'

spec-dark : (c : ℕ) → is_spec c ≡ true → not (is_blank c) ≡ true
unfolding is_digit is_blank
spec-dark c h = ground (arith, h)

spec-comma : (c : ℕ) → is_spec c ≡ true → other_than b',' c ≡ true
unfolding is_digit
spec-comma c h = ground (arith, h)

digit-dash : (c : ℕ) → is_digit c ≡ true → other_than b'-' c ≡ true
unfolding is_digit
digit-dash c h = ground (arith, h)

parse_range-header :
    (spec : Text) (others : Option Text) (total : ℕ)
    → all_codes is_spec spec ≡ true
    → parse_range (asking spec others) total ≡ parse_spec spec total
unfolding parse_range parse_after
parse_range-header spec others total h =
    ap (λ o. parse_after o total) (after_prefix-append range_prefix (spec ++ further others))
    ∙ ap (λ s. parse_spec (strip s) total)
        (before-further spec others (all_codes-weak is_spec (other_than b',') spec-comma spec h))
    ∙ ap (λ s. parse_spec s total) (strip-dark spec (all_codes-weak is_spec _ spec-dark spec h))

abbrev pub IsShort : ℕ → Type 0
IsShort n = length (print n) ≤ max_digits

-- What a numeral gives as the start of a range and as its end.
record Read (n : ℕ) (t : Text) (total : ℕ) : Type 0 where
  as_start : (s : Text) → parse_ends t s total ≡ clamped (some n) (end_of s total) total
  as_end : end_of t total ≡ some (pos n)
  as_suffix : parse_ends [] t total ≡ some (suffix_start total (pos n), last_byte total)

Read-of :
    (n c total : ℕ) (s : Text)
    → unsigned (strip (c ∷ s)) ≡ some n
    → signed (strip (c ∷ s)) ≡ some (pos n)
    → Read n (c ∷ s) total
unfolding parse_ends end_of
Read-of n c total s natural integer = record {
  as_start = λ t. rw natural refl;
  as_end = integer;
  as_suffix = rw integer refl;
}

print-Read : (n total : ℕ) → IsShort n → Read n (print n) total
unfolding unsigned signed is_digit
print-Read n total short =
    let (c, s, e, d) = print_cases n in
    let digits = print-digits n in
    let dark : strip (print n) ≡ print n =
      strip-dark (print n)
        (all_codes-weak is_digit _ (λ c h. spec-dark c (ground (arith, h))) (print n) digits) in
    let reads = number-print n short in
    let natural : unsigned (print n) ≡ some n = rw e (ground (arith, d.head, rw e at reads)) in
    let integer : signed (print n) ≡ some (pos n) =
      rw e (ground (arith, d.head, rw e at natural)) in
    rw e (
      Read-of n c total s (rw e at (ap unsigned dark ∙ natural))
        (rw e at (ap signed dark ∙ integer)))

print-spec : (n : ℕ) → all_codes is_spec (print n) ≡ true
unfolding is_digit
print-spec n = all_codes-weak is_digit is_spec (λ c h. ground (arith, h)) (print n) (print-digits n)

print-dash : (n : ℕ) → all_codes (other_than b'-') (print n) ≡ true
print-dash n = all_codes-weak is_digit (other_than b'-') digit-dash (print n) (print-digits n)

parse_spec-from :
    (a total : ℕ) (t : Text)
    → IsShort a
    → parse_spec (print a ++ b'-' ∷ t) total ≡ clamped (some a) (end_of t total) total
unfolding parse_spec
parse_spec-from a total t short =
    let parts = before-append b'-' (print a) t (print-dash a) in
    rw (parts.0, parts.1) ((print-Read a total short).as_start t)

parse_spec-suffix :
    (n total : ℕ)
    → IsShort n
    → parse_spec (b'-' ∷ print n) total ≡ some (suffix_start total (pos n), last_byte total)
unfolding parse_spec before behind
parse_spec-suffix n total short = (print-Read n total short).as_suffix

range-spec :
    (a : ℕ) (t : Text) → all_codes is_spec t ≡ true → all_codes is_spec (print a ++ b'-' ∷ t) ≡ true
unfolding all_codes
range-spec a t h = all_codes-append is_spec (print a) (b'-' ∷ t) (print-spec a) (ground (arith, h))

clamp-last_byte : (total : ℕ) → clamp (last_byte total) total ≡ last_byte total
unfolding clamp last_byte
clamp-last_byte zero = refl
clamp-last_byte (suc n) = ap pos (omega arith)

-- A range from `a` to `b` starts at `a` and ends at `b` or the last byte; one from `a` with no end
-- goes to the last byte; one of the last `b` bytes starts so many before the end, or at 0. Ranges
-- behind a comma change nothing. The numerals have no more digits than Python reads.
pub parse_range-asking :
    (a b total : ℕ) (others : Option Text)
    → IsShort a
    → IsShort b
    → (parse_range (asking (print a ++ b'-' ∷ print b) others) total
        ≡ some (a, clamp (pos b) total))
      × (parse_range (asking (print a ++ b'-' ∷ []) others) total ≡ some (a, last_byte total))
      × (parse_range (asking (b'-' ∷ print b) others) total ≡ some (total - b, last_byte total))
unfolding clamped end_of suffix_start all_codes is_digit
parse_range-asking a b total others ha hb = (
  parse_range-header (print a ++ b'-' ∷ print b) others total
        (range-spec a (print b) (print-spec b))
      ∙ parse_spec-from a total (print b) ha
      ∙ ap (λ e. clamped (some a) e total) (print-Read b total hb).as_end,
  parse_range-header (print a ++ b'-' ∷ []) others total (range-spec a [] refl)
      ∙ parse_spec-from a total [] ha
      ∙ ap (λ e. some (a, e)) (clamp-last_byte total),
  parse_range-header (b'-' ∷ print b) others total (print-spec b) ∙ parse_spec-suffix b total hb,
)
