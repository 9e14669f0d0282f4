-- ===== src/Identity/Words.antt =====
-- go-daemon/pkg/identity/mnemonic.go: `strings.TrimSpace`, which the phrase passes through.
use ripple.Prelude.{
  ap, ◌∙◌, not, ℕ, zero, suc, Text, ◌≡◌, refl, Option, none, some, List, [], ◌∷◌, Bool, true, false,
  arith, map, length, ◌&&◌, leb, ◌==◌, if◌then◌else◌,
}
use mathlib.Core.List.{reverse, reverse-reverse}

-- The characters of Unicode's White_Space, in UTF-8.
abbrev pub spaces : List Text
spaces =
    (9 ∷ [])
    ∷ (10 ∷ [])
    ∷ (11 ∷ [])
    ∷ (12 ∷ [])
    ∷ (13 ∷ [])
    ∷ (32 ∷ [])
    ∷ (0xc2 ∷ 0x85 ∷ [])
    ∷ (0xc2 ∷ 0xa0 ∷ [])
    ∷ (0xe1 ∷ 0x9a ∷ 0x80 ∷ [])
    ∷ (0xe2 ∷ 0x80 ∷ 0x80 ∷ [])
    ∷ (0xe2 ∷ 0x80 ∷ 0x81 ∷ [])
    ∷ (0xe2 ∷ 0x80 ∷ 0x82 ∷ [])
    ∷ (0xe2 ∷ 0x80 ∷ 0x83 ∷ [])
    ∷ (0xe2 ∷ 0x80 ∷ 0x84 ∷ [])
    ∷ (0xe2 ∷ 0x80 ∷ 0x85 ∷ [])
    ∷ (0xe2 ∷ 0x80 ∷ 0x86 ∷ [])
    ∷ (0xe2 ∷ 0x80 ∷ 0x87 ∷ [])
    ∷ (0xe2 ∷ 0x80 ∷ 0x88 ∷ [])
    ∷ (0xe2 ∷ 0x80 ∷ 0x89 ∷ [])
    ∷ (0xe2 ∷ 0x80 ∷ 0x8a ∷ [])
    ∷ (0xe2 ∷ 0x80 ∷ 0xa8 ∷ [])
    ∷ (0xe2 ∷ 0x80 ∷ 0xa9 ∷ [])
    ∷ (0xe2 ∷ 0x80 ∷ 0xaf ∷ [])
    ∷ (0xe2 ∷ 0x81 ∷ 0x9f ∷ [])
    ∷ (0xe3 ∷ 0x80 ∷ 0x80 ∷ [])
    ∷ []

-- What follows a prefix.
unfoldable pub cut_prefix : Text → Text → Option Text
cut_prefix [] t = some t
cut_prefix (c ∷ cs) [] = none
cut_prefix (c ∷ cs) (x ∷ xs) = if c == x then cut_prefix cs xs else none

unfoldable pub cut_any : List Text → Text → Option Text
cut_any [] t = none
cut_any (s ∷ ss) t = elim (cut_prefix s t) [ none ↦ cut_any ss t | some rest ↦ some rest ]

-- On fuel: a text loses at least a byte in each round.
unfoldable pub trim_front : ℕ → List Text → Text → Text
trim_front zero ss t = t
trim_front (suc fuel) ss t = elim (cut_any ss t) [ none ↦ t | some rest ↦ trim_front fuel ss rest ]

unfoldable pub trim_space : Text → Text
trim_space t =
    let front = trim_front (length t) spaces t in
    reverse (trim_front (length front) (map reverse spaces) (reverse front))

-- The first byte of a text is a small letter.
abbrev pub starts_small : Text → Bool
starts_small [] = false
starts_small (c ∷ cs) = leb 97 c && leb c 122

-- No text of the list is empty or starts with a small letter.
unfoldable are_clear : List Text → Bool
are_clear [] = true
are_clear ([] ∷ ss) = false
are_clear ((c ∷ cs) ∷ ss) = not (starts_small (c ∷ cs)) && are_clear ss

cut_any-small :
    (ss : List Text) (t : Text) → are_clear ss ≡ true → starts_small t ≡ true → cut_any ss t ≡ none
unfolding cut_any cut_prefix are_clear
cut_any-small [] t h small = refl
cut_any-small ([] ∷ ss) t h small = cc
cut_any-small ((c ∷ cs) ∷ ss) [] h small = cc
cut_any-small ((c ∷ cs) ∷ ss) (x ∷ xs) h small = ground (arith, cut_any-small ss (x ∷ xs))

trim_front-small :
    (fuel : ℕ) (ss : List Text) (t : Text)
    → are_clear ss ≡ true
    → starts_small t ≡ true
    → trim_front fuel ss t ≡ t
unfolding trim_front
trim_front-small zero ss t h small = refl
trim_front-small (suc fuel) ss t h small = rw (cut_any-small ss t h small, trim_front) refl

-- A text that starts and ends with a small letter stays as it is.
pub trim_space-small :
    (t : Text) → starts_small t ≡ true → starts_small (reverse t) ≡ true → trim_space t ≡ t
unfolding trim_space are_clear
trim_space-small t first last =
    ap (λ front. reverse (trim_front (length front) (map reverse spaces) (reverse front)))
      (trim_front-small (length t) spaces t refl first)
    ∙ ap reverse (trim_front-small (length t) (map reverse spaces) (reverse t) refl last)
    ∙ reverse-reverse t
