-- ===== src/Config/Csv.antt =====
-- go-daemon/pkg/config/config.go: `splitCSV`, the list of peers on the command line.
use ripple.Prelude.{
  ap, ap₂, ◌∙◌, sym, ℕ, Text, ◌≡◌, refl, List, [], ◌++◌, ◌∷◌, append-nil, append_assoc, Bool, true,
  false, arith, All, All-append, is_empty, ◌==◌, ◌||◌, Bool-cases, inl, inr, if◌then◌else◌,
}

-- `current` and `result`.
pub record Split : Type 0 where
  pub current : Text
  pub result : List Text

unfoldable pub flush : Split → Split
flush s =
    if is_empty s.current then s else record { current = []; result = s.result ++ (s.current ∷ []) }

-- The loop's body at a byte.
unfoldable pub split_byte : ℕ → Split → Split
split_byte c s =
    let longer = record s { current = s.current ++ (c ∷ []) } in
    if c == 44 then flush s else if c == 32 then s else longer

unfoldable pub split_loop : Text → Split → Split
split_loop [] s = s
split_loop (c ∷ cs) s = split_loop cs (split_byte c s)

unfoldable pub split_csv : Text → List Text
split_csv text = (flush (split_loop text (record { current = []; result = [] }))).result

-- A comma or a space.
abbrev pub is_separator : ℕ → Bool
is_separator c = c == 44 || c == 32

unfoldable pub holds_separator : Text → Bool
holds_separator [] = false
holds_separator (c ∷ cs) = is_separator c || holds_separator cs

abbrev pub IsItem : Text → Type 0
IsItem t = (is_empty t ≡ false) × (holds_separator t ≡ false)

-- The text without its separators, and the items put together.
unfoldable pub without_separators : Text → Text
without_separators [] = []
without_separators (c ∷ cs) =
    let rest = without_separators cs in if is_separator c then rest else c ∷ rest

unfoldable pub put_together : List Text → Text
put_together [] = []
put_together (t ∷ ts) = t ++ put_together ts

holds_separator-append :
    (xs ys : Text) → holds_separator (xs ++ ys) ≡ (holds_separator xs || holds_separator ys)
unfolding holds_separator
holds_separator-append [] ys = refl
holds_separator-append (x ∷ xs) ys = ground (arith, holds_separator-append xs ys)

put_together-append :
    (xs ys : List Text) → put_together (xs ++ ys) ≡ put_together xs ++ put_together ys
unfolding put_together
put_together-append [] ys = refl
put_together-append (x ∷ xs) ys =
    ap (λ r. x ++ r) (put_together-append xs ys)
    ∙ sym (append_assoc x (put_together xs) (put_together ys))

-- Every item is one, and what is begun has no separator.
abbrev IsClean : Split → Type 0
IsClean s = All IsItem s.result × (holds_separator s.current ≡ false)

flush-IsClean : (s : Split) → IsClean s → IsClean (flush s)
unfolding flush holds_separator
flush-IsClean s h = elim (Bool-cases (is_empty s.current)) [
  | inl nothing ↦ rw (nothing, flush) h
  | inr some_text ↦
      rw (some_text, flush)
        (All-append IsItem s.result (s.current ∷ []) h.0 ((some_text, h.1), tt), refl)
]

split_byte-IsClean : (c : ℕ) (s : Split) → IsClean s → IsClean (split_byte c s)
unfolding split_byte holds_separator
split_byte-IsClean c s h = elim (Bool-cases (c == 44)) [
  | inl comma ↦ rw (comma, split_byte) (flush-IsClean s h)
  | inr other ↦ elim (Bool-cases (c == 32)) [
    | inl space ↦ rw (other, split_byte) (rw (space, split_byte) h)
    | inr plain ↦
        rw (other, split_byte)
          (rw (plain, split_byte)
            (h.0, ground (arith, holds_separator-append s.current (c ∷ []), h.1, other, plain)))
  ]
]

split_loop-IsClean : (cs : Text) (s : Split) → IsClean s → IsClean (split_loop cs s)
unfolding split_loop
split_loop-IsClean [] s h = h
split_loop-IsClean (c ∷ cs) s h = split_loop-IsClean cs (split_byte c s) (split_byte-IsClean c s h)

-- The bytes that the variables hold.
abbrev held : Split → Text
held s = put_together s.result ++ s.current

empty_lem : (t : Text) → is_empty t ≡ true → t ≡ []
empty_lem [] h = refl
empty_lem (x ∷ xs) h = cc

held-flush : (s : Split) → put_together (flush s).result ≡ held s
unfolding flush put_together
held-flush s = elim (Bool-cases (is_empty s.current)) [
  | inl nothing ↦
      rw (nothing, flush)
        (rw (empty_lem s.current nothing) (sym (append-nil (put_together s.result))))
  | inr some_text ↦
      rw (some_text, flush)
        (put_together-append s.result (s.current ∷ [])
          ∙ ap (λ r. put_together s.result ++ r) (append-nil s.current))
]

flush-current : (s : Split) → (flush s).current ≡ []
unfolding flush
flush-current s = elim (Bool-cases (is_empty s.current)) [
  | inl nothing ↦ rw (nothing, flush) (empty_lem s.current nothing)
  | inr some_text ↦ rw (some_text, flush) refl
]

held-split_byte :
    (c : ℕ) (s : Split) → held (split_byte c s) ≡ held s ++ (if is_separator c then [] else c ∷ [])
unfolding split_byte
held-split_byte c s = elim (Bool-cases (c == 44)) [
  | inl comma ↦
      rw (comma, split_byte) (ap₂ (λ (a b : Text). a ++ b) (held-flush s) (flush-current s))
  | inr other ↦ elim (Bool-cases (c == 32)) [
    | inl space ↦ rw (other, split_byte) (rw (space, split_byte) (sym (append-nil (held s))))
    | inr plain ↦
        rw (other, split_byte)
          (rw (plain, split_byte) (sym (append_assoc (put_together s.result) s.current (c ∷ []))))
  ]
]

held-split_loop : (cs : Text) (s : Split) → held (split_loop cs s) ≡ held s ++ without_separators cs
unfolding split_loop without_separators
held-split_loop [] s = sym (append-nil (held s))
held-split_loop (c ∷ cs) s =
    held-split_loop cs (split_byte c s)
    ∙ ap (λ r. r ++ without_separators cs) (held-split_byte c s)
    ∙ append_assoc (held s) (if is_separator c then [] else c ∷ []) (without_separators cs)
    ∙ ap (λ r. held s ++ r) (after (is_separator c))
  where
    after :
        (b : Bool)
        → (if b then [] else c ∷ []) ++ without_separators cs
          ≡ (if b then without_separators cs else c ∷ without_separators cs)
    after true = refl
    after false = refl

-- Whatever the text, splitCSV returns items that are not empty and hold neither a comma nor a space, and put
-- together they are the text without its commas and spaces.
pub split_csv_lem :
    (text : Text)
    → All IsItem (split_csv text) × (put_together (split_csv text) ≡ without_separators text)
unfolding split_csv holds_separator without_separators put_together
split_csv_lem text =
    let start : Split = record { current = []; result = [] } in
    let end = split_loop text start in
    (
      (flush-IsClean end (split_loop-IsClean text start (tt, refl))).0,
      held-flush end ∙ held-split_loop text start,
    )

-- The items with commas in between, as `strings.Join` puts them.
unfoldable pub with_commas : List Text → Text
with_commas [] = []
with_commas (t ∷ []) = t
with_commas (t ∷ next ∷ ts) = t ++ (44 ∷ with_commas (next ∷ ts))

split_byte-plain :
    (c : ℕ) (s : Split)
    → is_separator c ≡ false
    → split_byte c s ≡ record s { current = s.current ++ (c ∷ []) }
unfolding split_byte
split_byte-plain c s h = ground arith

flush-item :
    (t : Text) (ts : List Text)
    → is_empty t ≡ false
    → flush (record { current = t; result = ts }) ≡ record { current = []; result = ts ++ (t ∷ []) }
unfolding flush
flush-item t ts h = rw (h, flush) refl

split_loop-clean :
    (t rest : Text) (s : Split)
    → holds_separator t ≡ false
    → split_loop (t ++ rest) s ≡ split_loop rest (record s { current = s.current ++ t })
unfolding split_loop holds_separator
split_loop-clean [] rest s h =
    ap (λ c. split_loop rest (record s { current = c })) (sym (append-nil s.current))
split_loop-clean (c ∷ t) rest s h =
    ap (split_loop (t ++ rest)) (split_byte-plain c s (ground arith))
    ∙ split_loop-clean t rest (record s { current = s.current ++ (c ∷ []) }) (ground arith)
    ∙ ap (λ k. split_loop rest (record s { current = k })) (append_assoc s.current (c ∷ []) t)

commas_loop :
    (ts result : List Text)
    → All IsItem ts
    → (flush (split_loop (with_commas ts) (record { current = []; result = result }))).result
      ≡ result ++ ts
unfolding with_commas split_loop flush split_byte
commas_loop [] result h = sym (append-nil result)
commas_loop (t ∷ []) result h =
    ap (λ text. (flush (split_loop text (record { current = []; result = result }))).result)
      (sym (append-nil t))
    ∙ ap (λ s. (flush s).result)
        (split_loop-clean t [] (record { current = []; result = result }) h.0.1)
    ∙ ap (λ (s : Split). s.result) (flush-item t result h.0.0)
commas_loop (t ∷ next ∷ ts) result h =
    ap (λ s. (flush s).result)
      (split_loop-clean t (44 ∷ with_commas (next ∷ ts)) (record { current = []; result = result })
          h.0.1
        ∙ ap (split_loop (with_commas (next ∷ ts))) (flush-item t result h.0.0))
    ∙ commas_loop (next ∷ ts) (result ++ (t ∷ [])) h.1
    ∙ append_assoc result (t ∷ []) (next ∷ ts)

-- Items with commas in between come back from splitCSV, if each is not empty and holds neither a comma nor
-- a space.
pub split_csv-with_commas : (ts : List Text) → All IsItem ts → split_csv (with_commas ts) ≡ ts
unfolding split_csv
split_csv-with_commas ts h = commas_loop ts [] h
