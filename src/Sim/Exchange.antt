-- ===== src/Sim/Exchange.antt =====
-- go-daemon/pkg/routing/sim/sim.go: one direction of a contact, and a meeting.
use ripple.Prelude.{ℤ, none, some, List, [], ◌∷◌, Dict, lookup, insert}
use ripple.Prelude.{inc, wrap64, ◌-ℤ◌, if◌then◌else◌}
use ripple.Routing.{
  Floats, EncounterStat, MessageState, SprayAction, deliver, spray, handoff, keep, dup, Forwarder,
  decide,
}
use ripple.Sim.{
  BufEntry, SimNode, Delivery, is_delivered, give, has_copy, drop_from, stat_for, update_encounter,
}

-- Two nodes that meet, with the states of the messages and the deliveries that all nodes share.
pub record Contact (F : Type 0) : Type 0 where
  pub a : SimNode F
  pub b : SimNode F
  pub states : Dict MessageState
  pub delivered : Dict Delivery

abbrev pub passed_on : BufEntry → BufEntry
passed_on e = record e { hops = inc e.hops }

module _ {F : Type 0} where
  abbrev pub swap : Contact F → Contact F
  swap p = record p { a = p.b; b = p.a }

  -- The cases of the switch, at the message's state.
  unfoldable pub transfer : ℤ → SprayAction → BufEntry → MessageState → Contact F → Contact F
  transfer tick deliver e st p =
      let d : Delivery = record { latency = wrap64 (tick -ℤ st.created_at); hops = e.hops } in
      record p {
        a = drop_from e.msg p.a;
        states = insert e.msg (record st { delivered_at = tick }) p.states;
        delivered = insert e.msg d p.delivered;
      }
  transfer tick spray e st p = record p {
    b = give (passed_on e) p.b;
    states = insert e.msg (record st { copies_made = inc st.copies_made }) p.states;
  }
  transfer tick handoff e st p = record p { a = drop_from e.msg p.a; b = give (passed_on e) p.b }
  transfer tick keep e st p = p
  transfer tick dup e st p = p

module _ {F : Type 0} (fl : Floats F) (f : Forwarder) (tick : ℤ) where
  -- One round of `exchange`, with the tables as they were at its start. A message without a state is a
  -- nil pointer, which no buffer holds.
  unfoldable pub offer :
      Dict (EncounterStat F) → Dict (EncounterStat F) → BufEntry → Contact F → Contact F
  offer ours theirs e p = elim (lookup e.msg p.states) [
    | none ↦ p
    | some st ↦
        let action =
          decide fl f st p.b.id (stat_for fl ours st.dst) (stat_for fl theirs st.dst)
            (has_copy e.msg p.b) in
        if is_delivered st then p else transfer tick action e st p
  ]

  unfoldable pub exchange_loop :
      Dict (EncounterStat F) → Dict (EncounterStat F) → List BufEntry → Contact F → Contact F
  exchange_loop ours theirs [] p = p
  exchange_loop ours theirs (e ∷ es) p = exchange_loop ours theirs es (offer ours theirs e p)

  unfoldable pub exchange : List BufEntry → Contact F → Contact F
  exchange snapshot p = exchange_loop p.a.stats p.b.stats snapshot p

  -- What a contact does: both tables, then the copies of one and of the other as they were at its start.
  unfoldable pub meet : Contact F → Contact F
  meet p =
      let a = update_encounter fl tick p.a p.b in
      let b = update_encounter fl tick p.b a in
      let there = exchange a.buf (record p { a = a; b = b }) in swap (exchange b.buf (swap there))
