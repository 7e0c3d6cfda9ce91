-- ===== src/Base/Decimal.antt =====
-- Decimal numerals, written by `str(n)` and read by `int(s)`, as code points.
use Prim.Native.Nat.{ℕ, zero, suc, ◌+◌, ◌-◌, ◌*◌, ◌/◌, ◌%◌, ◌≤◌, ◌<◌}
use mathlib.Core.Path.{◌≡◌, refl, ap, ◌∙◌}
use mathlib.Core.Bool.{Bool, true, false, not, ◌&&◌, ◌||◌}
use mathlib.Core.List.{List, [], ◌∷◌}
use mathlib.Core.Option.{Option, none, some}
use native.Mathlib.Omega.{arith}
use stremio_libtorrent_serve.Base.Tests.{ltb, leb, ◌==◌, if◌then◌else◌}
use stremio_libtorrent_serve.Base.Lists.{length}
use stremio_libtorrent_serve.Base.Text.{all_codes}

unfoldable pub is_digit : ℕ → Bool
is_digit c = leb b'0' c && leb c b'9'

-- `c.isspace()` for a byte
unfoldable pub is_space : ℕ → Bool
is_space c = leb 9 c && leb c 13 || c == 32

-- A round for each further digit; `fuel` is the number itself.
unfoldable pub print_digits : ℕ → ℕ → List ℕ → List ℕ
print_digits zero n out = (b'0' + n) ∷ out
print_digits (suc f) n out =
    let rest = print_digits f (n / 10) ((b'0' + n % 10) ∷ out) in
    if ltb n 10 then (b'0' + n) ∷ out else rest

-- `str(n)`
unfoldable pub print : ℕ → List ℕ
unfolding print_digits
print n = print_digits n n []

-- A digit before digits.
pub all_codes_cons :
    (c : ℕ) (s : List ℕ)
    → is_digit c ≡ true
    → all_codes is_digit s ≡ true
    → all_codes is_digit (c ∷ s) ≡ true
unfolding all_codes
all_codes_cons c s h d = ground (arith, h, d)

-- The number that digits spell behind `n`.
unfoldable pub value : ℕ → List ℕ → ℕ
value n [] = n
value n (c ∷ s) = value (n * 10 + (c - b'0')) s

unfoldable pub count_digits : List ℕ → ℕ
unfolding is_digit
count_digits [] = 0
count_digits (c ∷ s) = if is_digit c then suc (count_digits s) else count_digits s

-- What `int` reads behind a digit: digits, single underscores between them, space at the end.
unfoldable pub number_from : Bool → ℕ → List ℕ → Option ℕ
unfolding is_digit is_space all_codes
number_from under n [] = if under then none else some n
number_from under n (c ∷ s) =
    let rest = number_from (c == b'_') (if is_digit c then n * 10 + (c - b'0') else n) s in
    if is_digit c || c == b'_' && not under
    then rest
    else if not under && all_codes is_space (c ∷ s)
    then some n
    else none

-- Python reads no numeral of more digits.
abbrev pub max_digits : ℕ
max_digits = 4300

-- `int(s)` for a text that starts with no space and no sign.
unfoldable pub number : List ℕ → Option ℕ
unfolding is_digit number_from count_digits
number [] = none
number (c ∷ s) =
    if is_digit c && leb (count_digits (c ∷ s)) max_digits
    then number_from false (c - b'0') s
    else none

-- `negsuc n` is -(n + 1).
pub data ℤ : Type 0 where
  pos : ℕ → ℤ
  negsuc : ℕ → ℤ

unfoldable pub negated : ℕ → ℤ
negated zero = pos 0
negated (suc n) = negsuc n

-- `s.isdecimal()` for ASCII text
unfoldable pub is_decimal : List ℕ → Bool
unfolding all_codes is_digit
is_decimal [] = false
is_decimal (c ∷ s) = all_codes is_digit (c ∷ s)

print_digits-digits :
    (f n : ℕ) (out : List ℕ)
    → n ≤ f
    → all_codes is_digit out ≡ true
    → all_codes is_digit (print_digits f n out) ≡ true
unfolding print_digits all_codes is_digit
print_digits-digits zero n out h d = ground arith
print_digits-digits (suc f) n out h d =
    ground (arith, print_digits-digits f (n / 10) ((b'0' + n % 10) ∷ out))

pub print-digits : (n : ℕ) → all_codes is_digit (print n) ≡ true
unfolding print all_codes
print-digits n = print_digits-digits n n [] (omega arith) refl

value-print_digits : (f n : ℕ) (out : List ℕ) → n ≤ f → value 0 (print_digits f n out) ≡ value n out
unfolding print_digits value
value-print_digits zero n out h = ground arith
value-print_digits (suc f) n out h =
    ground (arith, value-print_digits f (n / 10) ((b'0' + n % 10) ∷ out))

pub value-print : (n : ℕ) → value 0 (print n) ≡ n
unfolding print value
value-print n = value-print_digits n n [] (omega arith)

-- The first digit is 0 only for a single one.
abbrev Leads : List ℕ → Type 0
Leads [] = ⊥
Leads (c ∷ s) = (b'0' < c) × (c ≤ b'9')

print_digits-Leads : (f n : ℕ) (out : List ℕ) → n ≤ f → 0 < n → Leads (print_digits f n out)
unfolding print_digits
print_digits-Leads zero n out h p = omega arith
print_digits-Leads (suc f) n out h p =
    ground (arith, print_digits-Leads f (n / 10) ((b'0' + n % 10) ∷ out))

-- A numeral: a digit, and digits behind it, with no 0 before others.
pub record IsNumeral (n : ℕ) (c : ℕ) (s : List ℕ) : Type 0 where
  pub head : is_digit c ≡ true
  pub digits : all_codes is_digit s ≡ true
  pub reads : value (c - b'0') s ≡ n
  pub leading : 0 < n → b'0' < c
  pub single : n ≡ 0 → s ≡ []

IsNumeral-of :
    (n : ℕ) (l : List ℕ)
    → all_codes is_digit l ≡ true
    → value 0 l ≡ n
    → (0 < n → Leads l)
    → (n ≡ 0 → l ≡ b'0' ∷ [])
    → (c : ℕ) × (s : List ℕ) × (l ≡ c ∷ s) × IsNumeral n c s
unfolding all_codes is_digit value
IsNumeral-of zero [] d v p z = absurd (let e = z refl in cc)
IsNumeral-of (suc n) [] d v p z = absurd (p (omega arith))
IsNumeral-of n (c ∷ s) d v p z = (
  c,
  s,
  refl,
  record {
    head = ground arith;
    digits = ground arith;
    reads = let e : c - b'0' ≡ 0 * 10 + (c - b'0') = omega arith in ap (λ m. value m s) e ∙ v;
    leading = λ h. (p h).0;
    single = λ e. let e' = z e in cc;
  },
)

pub print_cases : (n : ℕ) → (c : ℕ) × (s : List ℕ) × (print n ≡ c ∷ s) × IsNumeral n c s
print_cases n =
    IsNumeral-of n (print n) (print-digits n) (value-print n)
      (unfold print in print_digits-Leads n n [] (omega arith))
      (λ e. rw e (unfold print print_digits in refl))

-- What stands behind a numeral, for `number`.
pub number_from-digits :
    (n : ℕ) (s : List ℕ) → all_codes is_digit s ≡ true → number_from false n s ≡ some (value n s)
unfolding number_from all_codes value
number_from-digits n [] d = refl
number_from-digits n (c ∷ s) d = ground (arith, number_from-digits (n * 10 + (c - b'0')) s)

pub count_digits-digits : (s : List ℕ) → all_codes is_digit s ≡ true → count_digits s ≡ length s
unfolding count_digits all_codes
count_digits-digits [] d = refl
count_digits-digits (c ∷ s) d = ground (arith, count_digits-digits s)

-- A numeral that is short enough is read back.
pub number-print : (n : ℕ) → length (print n) ≤ max_digits → number (print n) ≡ some n
unfolding number
number-print n h =
    let (c, s, e, d) = print_cases n in
    rw e (
      ground (
        arith,
        d.head,
        d.reads,
        ap length e,
        count_digits-digits (c ∷ s),
        all_codes_cons c s d.head d.digits,
        number_from-digits (c - b'0') s d.digits,
      ))
