-- ===== src/Base/Keys.antt =====
-- Types whose values are compared: the keys of dictionaries and the members of sets.
use Prim.Native.Nat.{ℕ}
use Prim.Native.String.{String}
use mathlib.Core.Path.{◌≡◌, refl}
use mathlib.Core.List.{List, [], ◌∷◌}
use mathlib.Core.Bool.{Bool, true, false}
use native.Mathlib.Decide.{ℕ_discrete}
use text.Mathlib.Text.{◌==◌}
use text.Mathlib.TextEquality.{eq_iff}
use native.Mathlib.Omega.{arith}

pub record Key {ℓ} (K : Type ℓ) : Type ℓ where
  pub same : Discrete K

pub unequal : (s t : String) → (s == t) ≡ false → ¬ (s ≡ t)
unequal s t h e = ground (arith, eq_iff s t)

decided : (s t : String) (b : Bool) → (s == t) ≡ b → Dec (s ≡ t)
unfolding unequal
decided s t true h = yes ((eq_iff s t).0 h)
decided s t false h = no (unequal s t h)

unfoldable pub str_discrete : Discrete String
unfolding decided
str_discrete s t = decided s t (s == t) refl

instance abbrev pub string_key : Key String
string_key = record { same = str_discrete }

instance abbrev pub number_key : Key ℕ
number_key = record { same = ℕ_discrete }

unfoldable pub codes_discrete : Discrete (List ℕ)
unfolding ℕ_discrete
codes_discrete [] [] = yes refl
codes_discrete [] (b ∷ t) = no (cc)
codes_discrete (a ∷ s) [] = no (cc)
codes_discrete (a ∷ s) (b ∷ t) = elim (ℕ_discrete a b) [
  | yes p ↦ elim (codes_discrete s t) [ yes q ↦ yes (cc) | no q ↦ no (λ e. q (cc)) ]
  | no p ↦ no (λ e. p (cc))
]

instance abbrev pub codes_key : Key (List ℕ)
codes_key = record { same = codes_discrete }
