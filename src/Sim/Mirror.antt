-- ===== src/Sim/Mirror.antt =====
-- go-daemon/pkg/routing/sim/sim.go: the presence map of a node mirrors its buffer, which holds a message
-- at most once.
use ripple.Prelude.{ℕ, ◌+◌, ◌≤◌, Text, ◌≡◌, refl, List, [], ◌∷◌, ◌++◌, Bool, true, false, arith}
use ripple.Prelude.{member, member-remove, text_eq, if◌then◌else◌}
use ripple.Sim.{BufEntry, SimNode, is_in_buf, drop_first, give, drop_from}

abbrev pub once : Bool → ℕ
once b = if b then 1 else 0

-- How many copies of a message a buffer holds.
unfoldable pub count : Text → List BufEntry → ℕ
count k [] = 0
count k (e ∷ es) = once (text_eq k e.msg) + count k es

pub count-append : (k : Text) (xs ys : List BufEntry) → count k (xs ++ ys) ≡ count k xs + count k ys
unfolding count
count-append k [] ys = omega arith
count-append k (x ∷ xs) ys = omega (arith, count-append k xs ys)

count-drop_first :
    (k id : Text) (xs : List BufEntry)
    → count k (drop_first id xs) + once (text_eq k id)
      ≡ count k xs + (if is_in_buf id xs then 0 else once (text_eq k id))
unfolding count drop_first is_in_buf
count-drop_first k id [] = ground arith
count-drop_first k id (x ∷ xs) = ground (arith, count-drop_first k id xs)

count-is_in_buf : (id : Text) (xs : List BufEntry) → is_in_buf id xs ≡ true → 1 ≤ count id xs
unfolding count is_in_buf
count-is_in_buf id [] h = cc
count-is_in_buf id (x ∷ xs) h = ground (arith, count-is_in_buf id xs)

not_in_buf-count : (id : Text) (xs : List BufEntry) → is_in_buf id xs ≡ false → count id xs ≡ 0
unfolding count is_in_buf
not_in_buf-count id [] h = refl
not_in_buf-count id (x ∷ xs) h = ground (arith, not_in_buf-count id xs)

module _ {F : Type 0} where
  -- A message is in the buffer once if the presence map has it, and else not at all.
  unfoldable pub IsMirrored : SimNode F → Type 0
  IsMirrored n = (k : Text) → count k n.buf ≡ once (member k n.has)

  pub give-IsMirrored :
      (e : BufEntry) (n : SimNode F)
      → member e.msg n.has ≡ false
      → IsMirrored n
      → IsMirrored (give e n)
  unfolding IsMirrored give member count
  give-IsMirrored e n new h k = ground (arith, h k, count-append k n.buf (e ∷ []))

  pub count-give :
      (k : Text) (e : BufEntry) (n : SimNode F)
      → count k (give e n).buf ≡ count k n.buf + once (text_eq k e.msg)
  unfolding give count
  count-give k e n = ground (arith, count-append k n.buf (e ∷ []))

  pub drop_from-IsMirrored :
      (id : Text) (n : SimNode F) → IsMirrored n → IsMirrored (drop_from id n)
  unfolding IsMirrored drop_from
  drop_from-IsMirrored id n h k = ground (
    arith,
    h k,
    h id,
    count-drop_first k id n.buf,
    count-is_in_buf id n.buf,
    member-remove id k n.has,
  )

  -- A copy that is there is dropped, and no other.
  pub count-drop_from :
      (k id : Text) (n : SimNode F)
      → 1 ≤ count id n.buf
      → count k (drop_from id n).buf + once (text_eq k id) ≡ count k n.buf
  unfolding drop_from
  count-drop_from k id n h = ground (arith, count-drop_first k id n.buf, not_in_buf-count id n.buf)
