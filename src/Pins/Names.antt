-- ===== src/Pins/Names.antt =====
-- `_episode_matcher` of src/stremiosrv/pins.py: file names that read as an episode. A text is its
-- code points, and letters match in either case as ASCII does.
use stremio_libtorrent_serve.Base.{
  ℕ, zero, suc, ◌+◌, Bool, true, false, not, ◌&&◌, ◌||◌, List, [], ◌∷◌, ◌++◌, Option, some, leb,
  ◌==◌, if◌then◌else◌, print, is_digit, is_blank,
}

abbrev pub Text : Type 0
Text = List ℕ

unfoldable pub lower_code : ℕ → ℕ
lower_code c = if leb b'A' c && leb c b'Z' then c + 32 else c

unfoldable pub lower : Text → Text
unfolding lower_code
lower [] = []
lower (c ∷ s) = lower_code c ∷ lower s

-- A part of a regular expression, as every rest of the text that it can leave.
abbrev pub Matcher : Type 0
Matcher = Text → List Text

unfoldable pub each : Matcher → List Text → List Text
each m [] = []
each m (s ∷ rests) = m s ++ each m rests

infixr 20 ◌then◌
unfoldable pub ◌then◌ : Matcher → Matcher → Matcher
unfolding each
m then k = λ s. each k (m s)

unfoldable pub one : (ℕ → Bool) → Matcher
one test [] = []
one test (c ∷ s) = if test c then s ∷ [] else []

unfoldable pub many : (ℕ → Bool) → Matcher
many test [] = [] ∷ []
many test (c ∷ s) = let rest = many test s in if test c then (c ∷ s) ∷ rest else (c ∷ s) ∷ []

-- From none to so many.
unfoldable pub at_most : ℕ → (ℕ → Bool) → Matcher
at_most zero test s = s ∷ []
at_most (suc n) test [] = [] ∷ []
at_most (suc n) test (c ∷ s) =
    let rest = at_most n test s in if test c then (c ∷ s) ∷ rest else (c ∷ s) ∷ []

unfoldable pub exactly : Text → Matcher
exactly [] s = s ∷ []
exactly (p ∷ ps) [] = []
exactly (p ∷ ps) (c ∷ s) = let rest = exactly ps s in if p == c then rest else []

-- A letter, given in lower case.
unfoldable pub letter : ℕ → Matcher
unfolding one lower_code
letter l = one (λ c. lower_code c == l)

unfoldable pub starts_digit : Text → Bool
unfolding is_digit
starts_digit [] = false
starts_digit (c ∷ s) = is_digit c

-- `(?!\d)`
unfoldable pub no_digit : Matcher
unfolding starts_digit
no_digit s = if starts_digit s then [] else s ∷ []

unfoldable pub is_zero : ℕ → Bool
is_zero c = c == b'0'

-- `[\s._-]`
unfoldable pub is_filler : ℕ → Bool
unfolding is_blank
is_filler c = is_blank c || c == b'.' || c == b'_' || c == b'-'

-- `0*` and a number
unfoldable pub numeral : ℕ → Matcher
unfolding ◌then◌ many is_zero exactly
numeral n = many is_zero then exactly (print n)

-- `s0*{s}[\s._-]*e0*{e}(?!\d)`
unfoldable pub season_episode : ℕ → ℕ → Matcher
unfolding ◌then◌ letter numeral many is_filler no_digit
season_episode s e =
    letter b's' then numeral s then many is_filler then letter b'e' then numeral e then no_digit

-- `0*{s}\s*x\s*0*{e}(?!\d)`
unfoldable pub season_by_episode : ℕ → ℕ → Matcher
unfolding ◌then◌ letter numeral many is_blank no_digit
season_by_episode s e =
    numeral s then many is_blank then letter b'x' then many is_blank then numeral e then no_digit

unfoldable pub is_match : List Text → Bool
is_match [] = false
is_match (s ∷ rests) = true

-- `re.search`
unfoldable pub search_for : Matcher → Text → Bool
unfolding is_match
search_for m [] = is_match (m [])
search_for m (c ∷ s) = is_match (m (c ∷ s)) || search_for m s

-- `re.search` behind `(?<!\d)`; the first argument is whether a digit stands before the text.
unfoldable pub search_behind : Bool → Matcher → Text → Bool
unfolding is_match is_digit
search_behind digit m [] = not digit && is_match (m [])
search_behind digit m (c ∷ s) =
    let later = search_behind (is_digit c) m s in not digit && is_match (m (c ∷ s)) || later

-- `os.path.basename`: behind the last `/`.
unfoldable pub has_slash : Text → Bool
has_slash [] = false
has_slash (c ∷ s) = c == b'/' || has_slash s

unfoldable pub basename : Text → Text
unfolding has_slash
basename [] = []
basename (c ∷ s) = let rest = basename s in if c == b'/' || has_slash s then rest else c ∷ s

unfoldable pub reads_as : ℕ → ℕ → Text → Bool
unfolding search_for season_episode search_behind season_by_episode
reads_as season episode name =
    search_for (season_episode season episode) name
    || search_behind false (season_by_episode season episode) name

-- What a pin or a stream asks for: natural numbers; a value that is none is left out.
pub record Want : Type 0 where
  pub file_idx : Option ℕ
  pub season : Option ℕ
  pub episode : Option ℕ

-- `_episode_matcher`, at a path; false where no episode is named.
unfoldable pub is_episode : Option ℕ → Option ℕ → Text → Bool
unfolding reads_as basename
is_episode (some season) (some episode) path = reads_as season episode (basename path)
is_episode _ _ path = false

unfoldable pub names_an_episode : Option ℕ → Option ℕ → Bool
names_an_episode (some season) (some episode) = true
names_an_episode _ _ = false

-- `names_episode`
unfoldable pub names_episode : Text → ℕ → ℕ → Bool
unfolding is_episode
names_episode path season episode = is_episode (some season) (some episode) path
