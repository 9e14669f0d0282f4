-- ===== src/Prelude/Sets.antt =====
-- A Go map to `bool` that only ever holds `true`: the list of its keys.
use mathlib.Core.Path.{◌≡◌, refl}
use mathlib.Core.Bool.{Bool, false, ◌||◌}
use mathlib.Core.List.{List, [], ◌∷◌}
use native.Mathlib.Omega.{arith}
use ripple.Prelude.Tests.{if◌then◌else◌}
use ripple.Prelude.Strings.{Text, text_eq, text_lt}

unfoldable pub member : Text → List Text → Bool
member k [] = false
member k (j ∷ s) = text_eq k j || member k s

unfoldable pub remove : Text → List Text → List Text
remove k [] = []
remove k (j ∷ s) = if text_eq k j then remove k s else j ∷ remove k s

pub member-remove :
    (k j : Text) (s : List Text)
    → member j (remove k s) ≡ (if text_eq j k then false else member j s)
unfolding member remove
member-remove k j [] = ground arith
member-remove k j (i ∷ s) = ground (arith, member-remove k j s)

-- `sort.Slice` by `<` on strings. The keys of a map differ, so that the order decides the result.
unfoldable pub sort_insert : Text → List Text → List Text
sort_insert k [] = k ∷ []
sort_insert k (j ∷ s) = if text_lt j k then j ∷ sort_insert k s else k ∷ j ∷ s

unfoldable pub sort : List Text → List Text
sort [] = []
sort (k ∷ s) = sort_insert k (sort s)

member-sort_insert :
    (j k : Text) (s : List Text) → member j (sort_insert k s) ≡ (text_eq j k || member j s)
unfolding member sort_insert
member-sort_insert j k [] = refl
member-sort_insert j k (i ∷ s) = ground (arith, member-sort_insert j k s)

pub member-sort : (j : Text) (s : List Text) → member j (sort s) ≡ member j s
unfolding member sort
member-sort j [] = refl
member-sort j (k ∷ s) = ground (arith, member-sort_insert j k (sort s), member-sort j s)
