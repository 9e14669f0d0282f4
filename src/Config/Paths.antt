-- ===== src/Config/Paths.antt =====
-- go-daemon/pkg/config/config.go: `filepath.Join`, as it is on Unix.
use ripple.Prelude.{
  Text, bytes, List, [], ◌++◌, ◌∷◌, Bool, false, is_empty, text_eq, ◌==◌, ◌||◌, not, if◌then◌else◌,
}
use mathlib.Core.List.{reverse}

-- The parts of a path between its slashes.
unfoldable pub path_parts : Text → List Text
path_parts [] = [] ∷ []
path_parts (c ∷ cs) =
    let rest = path_parts cs in
    let longer : List Text = elim rest [ [] ↦ (c ∷ []) ∷ [] | part ∷ parts ↦ (c ∷ part) ∷ parts ] in
    if c == 47 then [] ∷ rest else longer

-- A part on top of those that were kept, the last of them first.
unfoldable pub keep_part : Bool → Text → List Text → List Text
keep_part rooted part kept =
    let up : List Text = elim kept [
      | [] ↦ if rooted then [] else part ∷ []
      | top ∷ below ↦ if text_eq top (bytes "..") then part ∷ top ∷ below else below
    ] in
    if is_empty part || text_eq part (bytes ".")
    then kept
    else if text_eq part (bytes "..")
    then up
    else part ∷ kept

unfoldable pub keep_parts : Bool → List Text → List Text → List Text
keep_parts rooted [] kept = kept
keep_parts rooted (part ∷ parts) kept = keep_parts rooted parts (keep_part rooted part kept)

unfoldable pub with_slashes : List Text → Text
with_slashes [] = []
with_slashes (part ∷ []) = part
with_slashes (part ∷ next ∷ parts) = part ++ (47 ∷ with_slashes (next ∷ parts))

-- `filepath.Clean`
unfoldable pub path_clean : Text → Text
path_clean path =
    let rooted : Bool = elim path [ [] ↦ false | c ∷ cs ↦ c == 47 ] in
    let kept = with_slashes (reverse (keep_parts rooted (path_parts path) [])) in
    let whole = if rooted then 47 ∷ kept else kept in if is_empty whole then bytes "." else whole

-- `filepath.Join` of two elements: an empty one is left out.
unfoldable pub path_join : Text → Text → Text
path_join dir name =
    if not (is_empty dir)
    then path_clean (dir ++ (47 ∷ name))
    else if is_empty name
    then []
    else path_clean name
