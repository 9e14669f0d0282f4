-- ===== src/Prelude/Strings.antt =====
-- A Go string is a sequence of bytes: a list of numbers, compared byte by byte.
use Prim.Native.Nat.{ℕ, ◌<◌}
use Prim.Native.Char.{code}
use Prim.Native.String.{String}
use mathlib.Core.Path.{refl, ap₂}
use mathlib.Core.Bool.{Bool, true, false, ◌&&◌, ◌||◌}
use mathlib.Core.List.{List, [], ◌∷◌}
use native.Mathlib.Decide.{ℕ_discrete}
use ripple.Prelude.Tests.{ltb, ◌==◌}

abbrev pub Text : Type 0
Text = List ℕ

-- The bytes of an ASCII literal.
abbrev pub bytes : String → Text
bytes String.[] = []
bytes (String.◌∷◌ c s) = code c ∷ bytes s

unfoldable pub text_dec : Discrete Text
unfolding ℕ_discrete
text_dec [] [] = yes refl
text_dec [] (y ∷ ys) = no (λ e. cc)
text_dec (x ∷ xs) [] = no (λ e. cc)
text_dec (x ∷ xs) (y ∷ ys) = elim (ℕ_discrete x y) [
  | no n ↦ no (λ e. absurd (n (cc)))
  | yes p ↦ elim (text_dec xs ys) [ no n ↦ no (λ e. absurd (n (cc))) | yes q ↦ yes (ap₂ ◌∷◌ p q) ]
]

-- `a == b` on strings.
abbrev pub text_eq : Text → Text → Bool
text_eq a b = elim (text_dec a b) [ yes _ ↦ true | no _ ↦ false ]

-- `s == ""`.
abbrev pub is_empty {ℓ} : {A : Type ℓ} → List A → Bool
is_empty [] = true
is_empty (x ∷ xs) = false

-- `a < b` on strings: the order by bytes.
unfoldable pub text_lt : Text → Text → Bool
text_lt xs [] = false
text_lt [] (y ∷ ys) = true
text_lt (x ∷ xs) (y ∷ ys) = ltb x y || (x == y && text_lt xs ys)

-- A list of bytes.
abbrev pub IsByte : ℕ → Type 0
IsByte b = b < 256
