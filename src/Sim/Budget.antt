-- ===== src/Sim/Budget.antt =====
-- go-daemon/pkg/routing/sim/sim.go: a meeting makes no copy that is not counted.
use ripple.Prelude.{ℕ, ◌+◌, ◌≤◌, ◌<◌, ◌^◌, Text, ℤ, pos, ◌≡◌, ◌≢◌, inl, inr, refl}
use ripple.Prelude.{none, List, [], ◌∷◌, arith, Dict, lookup}
use ripple.Prelude.{text_dec, Option-cases, Bool-cases}
use ripple.Routing.{Floats, EncounterStat, Forwarder, spray_and_wait, decide}
use ripple.Sim.{BufEntry, SimNode, is_delivered, has_copy, stat_for, update_encounter}
use ripple.Sim.Exchange.{Contact, swap, offer, exchange_loop, exchange, meet}
use ripple.Sim.Mirror.{count, IsMirrored}
use ripple.Sim.Copies.{
  made, Sound, Accounted, Accounted-refl, Accounted-trans, RoundOf, transfer-RoundOf,
}

module _ {F : Type 0} (fl : Floats F) (l : ℕ) (tick : ℤ) where
  abbrev by_budget : Forwarder
  by_budget = spray_and_wait (pos l)

  offer-RoundOf :
      (ours theirs : Dict (EncounterStat F)) (e : BufEntry) (p : Contact F)
      → l < 2 ^ 63
      → 1 ≤ count e.msg p.a.buf
      → Sound l p
      → RoundOf l e p (offer fl by_budget tick ours theirs e p)
  unfolding offer
  offer-RoundOf ours theirs e p hl there sound =
      let idle : RoundOf l e p p = record {
        sound = sound;
        accounted = Accounted-refl p;
        others = λ k ne. refl;
      } in
      elim (Option-cases (lookup e.msg p.states)) [
        | inl none_left ↦ rw (none_left, offer) idle
        | inr (st, found) ↦ elim (Bool-cases (is_delivered st)) [
          | inl over ↦ rw (found, offer) (rw (over, offer) idle)
          | inr open_yet ↦
              rw (found, offer)
                (rw (open_yet, offer)
                  (transfer-RoundOf l tick
                    (decide fl by_budget st p.b.id (stat_for fl ours st.dst)
                      (stat_for fl theirs st.dst) (has_copy e.msg p.b))
                    e st p hl found there (λ x. unfold decide in ground arith)
                    (λ x. unfold decide in ground arith) sound))
        ]
      ]

  -- The copies of a snapshot that are still in the first node's buffer.
  abbrev Holds : List BufEntry → SimNode F → Type 0
  Holds es n = (k : Text) → count k es ≤ count k n.buf

  mirrored_at : (k : Text) (n : SimNode F) → IsMirrored n → count k n.buf ≤ 1
  unfolding IsMirrored
  mirrored_at k n h = ground (arith, h k)

  head_there :
      (e : BufEntry) (es : List BufEntry) (n : SimNode F) → Holds (e ∷ es) n → 1 ≤ count e.msg n.buf
  unfolding count
  head_there e es n h = ground (arith, h e.msg)

  tail_there :
      (e : BufEntry) (es : List BufEntry) (p q : Contact F)
      → IsMirrored p.a
      → Holds (e ∷ es) p.a
      → ((k : Text) → k ≢ e.msg → count k q.a.buf ≡ count k p.a.buf)
      → Holds es q.a
  unfolding count
  tail_there e es p q hm h others k = elim (text_dec k e.msg) [
    | yes same ↦ ground (arith, same, h k, mirrored_at k p.a hm)
    | no other ↦ ground (arith, h k, others k other)
  ]

  exchange_loop-Sound :
      (ours theirs : Dict (EncounterStat F)) (es : List BufEntry) (p : Contact F)
      → l < 2 ^ 63
      → Holds es p.a
      → Sound l p
      → Sound l (exchange_loop fl by_budget tick ours theirs es p)
        × Accounted p (exchange_loop fl by_budget tick ours theirs es p)
  unfolding exchange_loop
  exchange_loop-Sound ours theirs [] p hl h sound = (sound, Accounted-refl p)
  exchange_loop-Sound ours theirs (e ∷ es) p hl h sound =
      let q = offer fl by_budget tick ours theirs e p in
      let round = offer-RoundOf ours theirs e p hl (head_there e es p.a h) sound in
      let (s, acc) =
        exchange_loop-Sound ours theirs es q hl
          (tail_there e es p q sound.a_mirrored h round.others) round.sound in
      (s, Accounted-trans p q _ round.accounted acc)

  -- A meeting of two nodes keeps their buffers mirrored and every count within the budget, and the copies
  -- that the two hold together grow by no more than the count does. No message gets a name.
  pub meet-Sound :
      (p : Contact F)
      → l < 2 ^ 63
      → Sound l p
      → Sound l (meet fl by_budget tick p)
        × ((k : Text)
            → count k (meet fl by_budget tick p).a.buf
                + count k (meet fl by_budget tick p).b.buf
                + made k p.states
              ≤ count k p.a.buf + count k p.b.buf + made k (meet fl by_budget tick p).states)
        × ((k : Text)
            → lookup k p.states ≡ none
            → lookup k (meet fl by_budget tick p).states ≡ none)
  unfolding meet exchange update_encounter IsMirrored
  meet-Sound p hl sound =
      let a = update_encounter fl tick p.a p.b in
      let b = update_encounter fl tick p.b a in
      let start : Contact F = record p { a = a; b = b } in
      let first : Sound l start = record {
        a_mirrored = sound.a_mirrored;
        b_mirrored = sound.b_mirrored;
        states_counted = sound.states_counted;
      } in
      let half = exchange_loop fl by_budget tick a.stats b.stats p.a.buf start in
      let (there, went) =
        exchange_loop-Sound a.stats b.stats p.a.buf start hl (λ k. omega arith) first in
      let turned : Sound l (swap half) = record {
        a_mirrored = there.b_mirrored;
        b_mirrored = there.a_mirrored;
        states_counted = there.states_counted;
      } in
      let (back, came) =
        exchange_loop-Sound half.b.stats half.a.stats p.b.buf (swap half) hl went.b_keeps turned in
      (
        record {
          a_mirrored = back.b_mirrored;
          b_mirrored = back.a_mirrored;
          states_counted = back.states_counted;
        },
        λ k. omega (arith, went.no_more k, came.no_more k),
        λ k x. came.no_name k (went.no_name k x),
      )
