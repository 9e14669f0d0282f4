-- ===== src/Sim/Nodes.antt =====
-- go-daemon/pkg/routing/sim/sim.go: the copies of a message over all nodes.
use ripple.Prelude.{ap, ℕ, zero, suc, ◌+◌, ◌≤◌, ◌<◌, Text, ℤ, ◌≡◌, ◌≢◌, refl, some, List, [], ◌∷◌}
use ripple.Prelude.{Bool, true, false, arith, All, All-append, Dict, map, member, if◌then◌else◌}
use ripple.Routing.{Floats, EncounterStat, MessageState}
use ripple.Sim.{BufEntry, SimNode}
use ripple.Sim.Mirror.{once, count, IsMirrored}
use ripple.Sim.Run.{
  at, put_at, contacts_of, contacts, sweep_buf, sweep, age_stats, age_lonely, in_contact,
}

-- A contact names two different nodes.
abbrev pub IsOrdered : ℕ × ℕ → Type 0
IsOrdered c = c.0 < c.1

contacts_of-IsOrdered :
    (near : ℕ → Bool) (i rounds j : ℕ) → i < j → All IsOrdered (contacts_of near i rounds j)
unfolding contacts_of
contacts_of-IsOrdered near i zero j h = tt
contacts_of-IsOrdered near i (suc rounds) j h =
    ordered (near j) (contacts_of-IsOrdered near i rounds (suc j) (omega arith))
  where
    ordered :
        (b : Bool)
        → All IsOrdered (contacts_of near i rounds (suc j))
        → All IsOrdered (
            if b
            then (i, j) ∷ contacts_of near i rounds (suc j)
            else contacts_of near i rounds (suc j))
    ordered true rest = (h, rest)
    ordered false rest = rest

pub contacts-IsOrdered :
    (near : ℕ → ℕ → Bool) (rounds i : ℕ) → All IsOrdered (contacts near rounds i)
unfolding contacts
contacts-IsOrdered near zero i = tt
contacts-IsOrdered near (suc rounds) i =
    All-append IsOrdered (contacts_of (near i) i rounds (suc i)) (contacts near rounds (suc i))
      (contacts_of-IsOrdered (near i) i rounds (suc i) (omega arith))
      (contacts-IsOrdered near rounds (suc i))

module _ {ℓ} {A : Type ℓ} where
  pub at-put_at : (i j : ℕ) (y : A) (xs : List A) → i ≢ j → at j (put_at i y xs) ≡ at j xs
  unfolding at put_at
  at-put_at i j y [] h = refl
  at-put_at zero zero y (x ∷ xs) h = absurd (h refl)
  at-put_at zero (suc j) y (x ∷ xs) h = refl
  at-put_at (suc i) zero y (x ∷ xs) h = refl
  at-put_at (suc i) (suc j) y (x ∷ xs) h = at-put_at i j y xs (λ e. h (omega arith))

  pub All-at {κ} :
      (P : A → Type κ) (i : ℕ) (x : A) (xs : List A) → All P xs → at i xs ≡ some x → P x
  unfolding at
  All-at P i x [] h e = cc
  All-at P zero x (y ∷ ys) h e = let same : y ≡ x = cc in rw (← same) h.0
  All-at P (suc i) x (y ∷ ys) h e = All-at P i x ys h.1 e

  pub All-put_at {κ} :
      (P : A → Type κ) (i : ℕ) (y : A) (xs : List A) → All P xs → P y → All P (put_at i y xs)
  unfolding put_at
  All-put_at P i y [] h hy = tt
  All-put_at P zero y (x ∷ xs) h hy = (hy, h.1)
  All-put_at P (suc i) y (x ∷ xs) h hy = (h.0, All-put_at P i y xs h.1 hy)

module _ {F : Type 0} where
  -- How many nodes' buffers hold the message, counting every entry.
  unfoldable pub copies : Text → List (SimNode F) → ℕ
  copies k [] = 0
  copies k (n ∷ ns) = count k n.buf + copies k ns

  pub copies-put_at :
      (k : Text) (i : ℕ) (n m : SimNode F) (ns : List (SimNode F))
      → at i ns ≡ some n
      → copies k (put_at i m ns) + count k n.buf ≡ copies k ns + count k m.buf
  unfolding copies at put_at
  copies-put_at k i n m [] e = cc
  copies-put_at k zero n m (x ∷ ns) e =
      let same : x ≡ n = cc in ground (arith, ap (λ (y : SimNode F). count k y.buf) same)
  copies-put_at k (suc i) n m (x ∷ ns) e = omega (arith, copies-put_at k i n m ns e)

  pub count-copies :
      (k : Text) (i : ℕ) (n : SimNode F) (ns : List (SimNode F))
      → at i ns ≡ some n
      → count k n.buf ≤ copies k ns
  unfolding copies at
  count-copies k i n [] e = cc
  count-copies k zero n (x ∷ ns) e =
      let same : x ≡ n = cc in ground (arith, ap (λ (y : SimNode F). count k y.buf) same)
  count-copies k (suc i) n (x ∷ ns) e = omega (arith, count-copies k i n ns e)

count-sweep_buf :
    (states : Dict MessageState) (tick : ℤ) (k : Text) (es : List BufEntry)
    → count k (sweep_buf states tick es) ≤ count k es
unfolding count sweep_buf
count-sweep_buf states tick k [] = omega arith
count-sweep_buf states tick k (e ∷ es) = ground (arith, count-sweep_buf states tick k es)

-- A buffer with at most one copy of a message is mirrored by the list of its messages.
mirrored_by_list :
    (k : Text) (es : List BufEntry)
    → count k es ≤ 1
    → count k es ≡ once (member k (map (λ e. e.msg) es))
unfolding count member
mirrored_by_list k [] h = refl
mirrored_by_list k (e ∷ es) h = ground (arith, mirrored_by_list k es)

module _ {F : Type 0} where
  sweep-IsMirrored :
      (states : Dict MessageState) (tick : ℤ) (n : SimNode F)
      → IsMirrored n
      → IsMirrored (sweep states tick n)
  unfolding IsMirrored sweep
  sweep-IsMirrored states tick n h k =
      mirrored_by_list k (sweep_buf states tick n.buf)
        (ground (arith, h k, count-sweep_buf states tick k n.buf))

  pub sweep-All-Mirrored :
      (states : Dict MessageState) (tick : ℤ) (ns : List (SimNode F))
      → All IsMirrored ns
      → All IsMirrored (map (sweep states tick) ns)
  sweep-All-Mirrored states tick [] h = tt
  sweep-All-Mirrored states tick (n ∷ ns) h =
      (sweep-IsMirrored states tick n h.0, sweep-All-Mirrored states tick ns h.1)

  pub copies-sweep :
      (states : Dict MessageState) (tick : ℤ) (k : Text) (ns : List (SimNode F))
      → copies k (map (sweep states tick) ns) ≤ copies k ns
  unfolding copies sweep
  copies-sweep states tick k [] = omega arith
  copies-sweep states tick k (n ∷ ns) =
      omega (arith, count-sweep_buf states tick k n.buf, copies-sweep states tick k ns)

module _ {F : Type 0} (fl : Floats F) (cs : List (ℕ × ℕ)) where
  pub copies-age_lonely :
      (k : Text) (i : ℕ) (ns : List (SimNode F)) → copies k (age_lonely fl cs i ns) ≡ copies k ns
  unfolding copies age_lonely
  copies-age_lonely k i [] = refl
  copies-age_lonely k i (n ∷ ns) = ground (arith, copies-age_lonely k (suc i) ns)

  same_buffer :
      (n : SimNode F) (stats : Dict (EncounterStat F))
      → IsMirrored n
      → IsMirrored (record n { stats = stats })
  unfolding IsMirrored
  same_buffer n stats h = h

  pub age_lonely-Mirrored :
      (i : ℕ) (ns : List (SimNode F)) → All IsMirrored ns → All IsMirrored (age_lonely fl cs i ns)
  unfolding age_lonely
  age_lonely-Mirrored i [] h = tt
  age_lonely-Mirrored i (n ∷ ns) h = (
    either (in_contact i cs) n (record n { stats = age_stats fl n.stats }) h.0
        (same_buffer n _ h.0),
    age_lonely-Mirrored (suc i) ns h.1,
  )
    where
      either :
          (b : Bool) (x y : SimNode F)
          → IsMirrored x
          → IsMirrored y
          → IsMirrored (if b then x else y)
      either true x y hx hy = hx
      either false x y hx hy = hy
