-- ===== src/Daemon/Fields.antt =====
-- go-daemon/cmd/rippled/main.go: `strings.Fields` and `strings.Join`, which take a command apart.
use ripple.Prelude.{
  ℕ, zero, suc, Text, none, some, List, [], ◌++◌, ◌∷◌, Bool, true, false, is_empty, length, ◌==◌,
  if◌then◌else◌,
}
use ripple.Identity.Words.{spaces, cut_any}

abbrev pub with_word : Text → List Text → List Text
with_word word rest = if is_empty word then rest else word ∷ rest

-- On fuel, with the word begun: a text loses at least a byte in each round.
unfoldable pub fields_loop : ℕ → Text → Text → List Text
fields_loop zero word t = with_word word []
fields_loop (suc fuel) word [] = with_word word []
fields_loop (suc fuel) word (c ∷ cs) = elim (cut_any spaces (c ∷ cs)) [
  | none ↦ fields_loop fuel (word ++ (c ∷ [])) cs
  | some rest ↦ with_word word (fields_loop fuel [] rest)
]

unfoldable pub fields : Text → List Text
fields t = fields_loop (suc (length t)) [] t

-- `strings.Join(words, " ")`
unfoldable pub join_words : List Text → Text
join_words [] = []
join_words (w ∷ []) = w
join_words (w ∷ next ∷ ws) = w ++ (32 ∷ join_words (next ∷ ws))

-- `strings.HasPrefix(t, prefix)`
unfoldable pub has_prefix : Text → Text → Bool
has_prefix [] t = true
has_prefix (p ∷ ps) [] = false
has_prefix (p ∷ ps) (c ∷ cs) = if p == c then has_prefix ps cs else false
