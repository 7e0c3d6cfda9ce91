-- ===== src/Base/Text.antt =====
-- Python text: its characters by their code points.
use Prim.Native.Char.{Char, code}
use Prim.Native.Nat.{ℕ}
use Prim.Native.String.{String}
use mathlib.Core.Bool.{Bool, true, false, not, ◌&&◌, ◌||◌}
use mathlib.Core.Path.{◌≡◌, refl}
use native.Mathlib.Omega.{arith}
use mathlib.Core.List.{List, [], ◌∷◌, ◌++◌}
use mathlib.Core.Option.{Option, none, some}
use mathlib.Core.Logic.{ite}
use stremio_libtorrent_serve.Base.Tests.{leb, ◌==◌, if◌then◌else◌}
use stremio_libtorrent_serve.Base.Keys.{str_discrete}

-- The code points of a text.
abbrev pub codes : String → List ℕ
codes String.[] = []
codes (String.◌∷◌ c s) = code c ∷ codes s

-- `chr(n) in s`
unfoldable pub has_code : ℕ → List ℕ → Bool
has_code n [] = false
has_code n (c ∷ s) = n == c || has_code n s

-- `str.isspace()`, which `\s` and `strip` go by, of a character
unfoldable pub is_blank : ℕ → Bool
is_blank c =
    leb 9 c && leb c 13
    || leb 28 c && leb c 32
    || c == 0x85
    || c == 0xa0
    || c == 0x1680
    || leb 0x2000 c && leb c 0x200a
    || c == 0x2028
    || c == 0x2029
    || c == 0x202f
    || c == 0x205f
    || c == 0x3000

-- `s.strip()`, from the start and from the end
unfoldable pub strip_start : List ℕ → List ℕ
unfolding is_blank
strip_start [] = []
strip_start (c ∷ s) = let rest = strip_start s in if is_blank c then rest else c ∷ s

unfoldable pub is_empty : List ℕ → Bool
is_empty [] = true
is_empty (c ∷ s) = false

unfoldable pub strip_end : List ℕ → List ℕ
unfolding is_blank is_empty
strip_end [] = []
strip_end (c ∷ s) = let rest = strip_end s in if is_blank c && is_empty rest then [] else c ∷ rest

-- `s.strip()`
unfoldable pub strip : List ℕ → List ℕ
unfolding strip_start strip_end
strip s = strip_end (strip_start s)

-- What follows a prefix, if it is there.
unfoldable pub after_prefix : List ℕ → List ℕ → Option (List ℕ)
after_prefix [] s = some s
after_prefix (p ∷ ps) [] = none
after_prefix (p ∷ ps) (c ∷ s) = if p == c then after_prefix ps s else none

-- `all(test(c) for c in s)`
unfoldable pub all_codes : (ℕ → Bool) → List ℕ → Bool
all_codes p [] = true
all_codes p (c ∷ s) = p c && all_codes p s

unfoldable pub is_lower_hex : ℕ → Bool
is_lower_hex c = leb b'0' c && leb c b'9' || leb b'a' c && leb c b'f'

-- The lower-case form of an ASCII capital; any other character is its own.
lower_case : List (ℕ × Char)
lower_case =
    (65, "a")
    ∷ (66, "b")
    ∷ (67, "c")
    ∷ (68, "d")
    ∷ (69, "e")
    ∷ (70, "f")
    ∷ (71, "g")
    ∷ (72, "h")
    ∷ (73, "i")
    ∷ (74, "j")
    ∷ (75, "k")
    ∷ (76, "l")
    ∷ (77, "m")
    ∷ (78, "n")
    ∷ (79, "o")
    ∷ (80, "p")
    ∷ (81, "q")
    ∷ (82, "r")
    ∷ (83, "s")
    ∷ (84, "t")
    ∷ (85, "u")
    ∷ (86, "v")
    ∷ (87, "w")
    ∷ (88, "x")
    ∷ (89, "y")
    ∷ (90, "z")
    ∷ []

find_case : Char → List (ℕ × Char) → Char
find_case c [] = c
find_case c ((n, d) ∷ table) = if code c == n then d else find_case c table

-- `s.lower()` on ASCII text, such as an infohash.
unfoldable pub lower : String → String
unfolding lower_case find_case
lower String.[] = String.[]
lower (String.◌∷◌ c s) = String.◌∷◌ (find_case c lower_case) (lower s)

-- `s.endswith(suffix)`
unfoldable pub ends_with : String → String → Bool
ends_with String.[] suffix = ite (str_discrete String.[] suffix) true false
ends_with (String.◌∷◌ c s) suffix =
    let rest = ends_with s suffix in ite (str_discrete (String.◌∷◌ c s) suffix) true rest

-- `s.startswith(prefix)`
unfoldable pub starts_with : String → String → Bool
starts_with String.[] s = true
starts_with (String.◌∷◌ p ps) String.[] = false
starts_with (String.◌∷◌ p ps) (String.◌∷◌ c s) = code p == code c && starts_with ps s

-- A text with no blank is stripped of nothing.
strip_start-dark : (s : List ℕ) → all_codes (λ c. not (is_blank c)) s ≡ true → strip_start s ≡ s
unfolding strip_start all_codes
strip_start-dark [] h = refl
strip_start-dark (c ∷ s) h = ground (arith, h, strip_start-dark s)

strip_end-dark : (s : List ℕ) → all_codes (λ c. not (is_blank c)) s ≡ true → strip_end s ≡ s
unfolding strip_end all_codes
strip_end-dark [] h = refl
strip_end-dark (c ∷ s) h = ground (arith, h, strip_end-dark s)

pub strip-dark : (s : List ℕ) → all_codes (λ c. not (is_blank c)) s ≡ true → strip s ≡ s
unfolding strip
strip-dark s h = rw (strip_start-dark s h) (strip_end-dark s h)

pub after_prefix-append : (p s : List ℕ) → after_prefix p (p ++ s) ≡ some s
unfolding after_prefix
after_prefix-append [] s = refl
after_prefix-append (c ∷ p) s = ground (arith, after_prefix-append p s)
