-- ===== src/Sim/Copies.antt =====
-- go-daemon/pkg/routing/sim/sim.go: a copy that changes hands, or is made, is counted.
use ripple.Prelude.{ℕ, suc, ◌+◌, ◌≤◌, ◌<◌, ◌^◌, Text, ℤ, pos, pos_part, ◌≡◌, ◌≢◌, refl, ◌∙◌, ap}
use ripple.Prelude.{Option, none, some, true, false, arith, Dict, lookup, insert}
use ripple.Prelude.{lookup-insert, text_eq, text_dec, inc, if◌then◌else◌, ltb, ltb_ℤ}
use ripple.Prelude.{inc_pos}
use ripple.Routing.{MessageState, SprayAction, deliver, spray, handoff, keep, dup}
use ripple.Sim.{BufEntry, has_copy}
use ripple.Sim.Exchange.{Contact, passed_on, transfer}
use ripple.Sim.Mirror.{
  count, IsMirrored, give-IsMirrored, count-give, drop_from-IsMirrored, count-drop_from,
}

-- The most copies that a budget of `l` allows: the source's own counts.
abbrev pub copy_cap : ℕ → ℕ
copy_cap l = if ltb l 1 then 1 else l

-- How many copies of a message were made, by its state.
unfoldable pub made : Text → Dict MessageState → ℕ
made k states = elim (lookup k states) [ none ↦ 0 | some st ↦ pos_part st.copies_made ]

-- A count is not negative and within the budget.
pub record WithinBudget (l : ℕ) (st : MessageState) : Type 0 where
  pub copies : ℕ
  pub counted : st.copies_made ≡ pos copies
  pub bounded : copies ≤ copy_cap l

unfoldable pub IsCounted : ℕ → Dict MessageState → Type 0
IsCounted l states = (k : Text) (st : MessageState) → lookup k states ≡ some st → WithinBudget l st

pub IsCounted-insert :
    (l : ℕ) (id : Text) (st : MessageState) (states : Dict MessageState)
    → IsCounted l states
    → WithinBudget l st
    → IsCounted l (insert id st states)
unfolding IsCounted
IsCounted-insert l id st states h hs k st' e = elim (text_dec k id) [
  | yes same ↦ let eq : st ≡ st' = ground (arith, lookup-insert id k st states) in rw (← eq) hs
  | no other ↦ h k st' (ground (arith, lookup-insert id k st states))
]

pub made-insert :
    (k id : Text) (st : MessageState) (states : Dict MessageState)
    → made k (insert id st states)
      ≡ (if text_eq k id then pos_part st.copies_made else made k states)
unfolding made
made-insert k id st states = ground (arith, lookup-insert id k st states)

made-found :
    (k : Text) (st : MessageState) (states : Dict MessageState)
    → lookup k states ≡ some st
    → made k states ≡ pos_part st.copies_made
unfolding made
made-found k st states e = rw (e, made)

absent_found : {a b : Option MessageState} {st : MessageState} → a ≡ b → a ≡ none → b ≡ some st → ⊥
absent_found e x y = cc

-- A message that has a state gets another one, and no name is new.
insert-no_name :
    (id : Text) (st st' : MessageState) (states : Dict MessageState)
    → lookup id states ≡ some st
    → (k : Text) → lookup k states ≡ none
    → lookup k (insert id st' states) ≡ none
insert-no_name id st st' states found k x = elim (text_dec k id) [
  | yes same ↦ absurd (absent_found (ap (λ y. lookup y states) same) x found)
  | no other ↦ ground (arith, lookup-insert id k st' states)
]

counted_at :
    (l : ℕ) (k : Text) (st : MessageState) (states : Dict MessageState)
    → IsCounted l states
    → lookup k states ≡ some st
    → WithinBudget l st
unfolding IsCounted
counted_at l k st states h e = h k st e

module _ {F : Type 0} where
  -- Both nodes mirror their buffers, and every count is within the budget.
  pub record Sound (l : ℕ) (p : Contact F) : Type 0 where
    pub a_mirrored : IsMirrored p.a
    pub b_mirrored : IsMirrored p.b
    pub states_counted : IsCounted l p.states

  -- No copy appears that is not counted, and the second node loses none.
  pub record Accounted (p q : Contact F) : Type 0 where
    pub no_more :
        (k : Text)
        → count k q.a.buf + count k q.b.buf + made k p.states
          ≤ count k p.a.buf + count k p.b.buf + made k q.states
    pub b_keeps : (k : Text) → count k p.b.buf ≤ count k q.b.buf
    pub a_loses : (k : Text) → count k q.a.buf ≤ count k p.a.buf
    pub no_name : (k : Text) → lookup k p.states ≡ none → lookup k q.states ≡ none

  pub Accounted-refl : (p : Contact F) → Accounted p p
  Accounted-refl p = record {
    no_more = λ k. omega arith;
    b_keeps = λ k. omega arith;
    a_loses = λ k. omega arith;
    no_name = λ k x. x;
  }

  pub Accounted-trans : (p q r : Contact F) → Accounted p q → Accounted q r → Accounted p r
  Accounted-trans p q r h g = record {
    no_more = λ k. omega (arith, h.no_more k, g.no_more k);
    b_keeps = λ k. omega (arith, h.b_keeps k, g.b_keeps k);
    a_loses = λ k. omega (arith, h.a_loses k, g.a_loses k);
    no_name = λ k x. g.no_name k (h.no_name k x);
  }

  -- What a round does to the copies of the other messages.
  pub record RoundOf (l : ℕ) (e : BufEntry) (p q : Contact F) : Type 0 where
    pub sound : Sound l q
    pub accounted : Accounted p q
    pub others : (k : Text) → k ≢ e.msg → count k q.a.buf ≡ count k p.a.buf

  pub transfer-RoundOf :
      (l : ℕ) (tick : ℤ) (action : SprayAction) (e : BufEntry) (st : MessageState) (p : Contact F)
      → l < 2 ^ 63
      → lookup e.msg p.states ≡ some st
      → 1 ≤ count e.msg p.a.buf
      → (action ≡ spray → (has_copy e.msg p.b ≡ false) × (ltb_ℤ st.copies_made (pos l) ≡ true))
      → (action ≡ handoff → has_copy e.msg p.b ≡ false)
      → Sound l p
      → RoundOf l e p (transfer tick action e st p)
  unfolding transfer has_copy
  transfer-RoundOf l tick keep e st p hl found there s h sound = record {
    sound = sound;
    accounted = Accounted-refl p;
    others = λ k ne. refl;
  }
  transfer-RoundOf l tick dup e st p hl found there s h sound = record {
    sound = sound;
    accounted = Accounted-refl p;
    others = λ k ne. refl;
  }
  transfer-RoundOf l tick deliver e st p hl found there s h sound =
      let now = counted_at l e.msg st p.states sound.states_counted found in
      let st' = record st { delivered_at = tick } in
      let same = made-found e.msg st p.states found in
      record {
        sound = record {
          a_mirrored = drop_from-IsMirrored e.msg p.a sound.a_mirrored;
          b_mirrored = sound.b_mirrored;
          states_counted =
              IsCounted-insert l e.msg st' p.states sound.states_counted
                (record { copies = now.copies; counted = now.counted; bounded = now.bounded });
        };
        accounted = record {
          no_more = λ k.
              ground
                (arith, count-drop_from k e.msg p.a there, made-insert k e.msg st' p.states, same);
          b_keeps = λ k. omega arith;
          a_loses = λ k. omega (arith, count-drop_from k e.msg p.a there);
          no_name = insert-no_name e.msg st st' p.states found;
        };
        others = λ k ne. ground (arith, count-drop_from k e.msg p.a there);
      }
  transfer-RoundOf l tick spray e st p hl found there s h sound =
      let (new, room) = s refl in
      let now = counted_at l e.msg st p.states sound.states_counted found in
      let st' = record st { copies_made = inc st.copies_made } in
      let same = made-found e.msg st p.states found in
      let more : inc st.copies_made ≡ pos (suc now.copies) =
        ap inc now.counted ∙ inc_pos now.copies (ground (arith, now.counted)) in
      record {
        sound = record {
          a_mirrored = sound.a_mirrored;
          b_mirrored = give-IsMirrored (passed_on e) p.b new sound.b_mirrored;
          states_counted = IsCounted-insert l e.msg st' p.states sound.states_counted (record {
            copies = suc now.copies;
            counted = more;
            bounded = ground (arith, now.counted);
          });
        };
        accounted = record {
          no_more = λ k. ground (
            arith,
            count-give k (passed_on e) p.b,
            made-insert k e.msg st' p.states,
            same,
            more,
            now.counted,
          );
          b_keeps = λ k. omega (arith, count-give k (passed_on e) p.b);
          a_loses = λ k. omega arith;
          no_name = insert-no_name e.msg st st' p.states found;
        };
        others = λ k ne. refl;
      }
  transfer-RoundOf l tick handoff e st p hl found there s h sound = record {
    sound = record {
      a_mirrored = drop_from-IsMirrored e.msg p.a sound.a_mirrored;
      b_mirrored = give-IsMirrored (passed_on e) p.b (h refl) sound.b_mirrored;
      states_counted = sound.states_counted;
    };
    accounted = record {
      no_more =
          λ k. omega (arith, count-drop_from k e.msg p.a there, count-give k (passed_on e) p.b);
      b_keeps = λ k. omega (arith, count-give k (passed_on e) p.b);
      a_loses = λ k. omega (arith, count-drop_from k e.msg p.a there);
      no_name = λ k x. x;
    };
    others = λ k ne. ground (arith, count-drop_from k e.msg p.a there);
  }
