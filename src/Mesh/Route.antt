-- ===== src/Mesh/Route.antt =====
-- go-daemon/pkg/mesh/mesh.go: `routeToPeers`.
use ripple.Prelude.{Text, pos, none, some, List, [], ◌∷◌, inc}
use ripple.Message.{Message}
use ripple.Routing.{
  Floats, EncounterStat, MessageState, MsgKind, SprayAction, deliver, spray, handoff, keep, dup,
  Forwarder, spray_and_wait, fresh_stat, decide,
}
use ripple.Mesh.Node.{
  RelayAction, direct, Node, World, Env, emit, emit_relay, with_node, holds_copy, mark_sprayed,
  routing_candidates, stat_for_destination,
}

-- `routing.EncounterStat{}`
unfoldable pub zero_stat : {F : Type 0} → Floats F → EncounterStat F
zero_stat fl = fresh_stat fl []

-- The world and the message, whose copy count the loop moves on.
pub record Routed (F : Type 0) : Type 0 where
  pub world : World F
  pub message : Message

-- `routing.MessageState{...}`; its copy count and the message's are moved on together.
unfoldable pub routing_state : Message → MessageState
routing_state m = record {
  id = m.id;
  src = m.sender;
  dst = m.recipient;
  kind = MsgKind.chat;
  created_at = pos 0;
  ttl = m.ttl;
  copies_made = m.copies_made;
  delivered_at = pos 0;
}

module _ {F : Type 0} where
  -- Marking, the event, and `sendCopy`, which ignores a failure.
  unfoldable pub hand_over : Text → Text → Routed F → Routed F
  hand_over from peer r =
      let w = with_node (mark_sprayed r.message.id peer r.world.node) r.world in
      record r {
        world = emit (direct peer r.message) (emit_relay RelayAction.forwarded from r.message w);
      }

  -- The cases of the switch; the case of a new copy falls through.
  unfoldable pub act : SprayAction → Text → Text → Routed F → Routed F
  act spray from peer r =
      let m = r.message in
      hand_over from peer (record r { message = record m { copies_made = inc m.copies_made } })
  act deliver from peer r = hand_over from peer r
  act handoff from peer r = hand_over from peer r
  act keep from peer r = r
  act dup from peer r = r

  unfoldable pub the_forwarder : Node F → Forwarder
  the_forwarder n = elim n.forwarder [ none ↦ spray_and_wait n.spray_budget | some f ↦ f ]

module _ {F : Type 0} (fl : Floats F) (f : Forwarder) (mine : EncounterStat F) (from : Text) where
  -- One round of the loop.
  unfoldable pub route_peer : Text → Routed F → Routed F
  route_peer peer r =
      let holds = holds_copy r.world.node r.message.id peer in
      act (decide fl f (routing_state r.message) peer mine (zero_stat fl) holds) from peer r

  unfoldable pub route_loop : List Text → Routed F → Routed F
  route_loop [] r = r
  route_loop (peer ∷ peers) r = route_loop peers (route_peer peer r)

module _ {F : Type 0} (env : Env F) where
  unfoldable pub route_to_peers : Message → Text → World F → Routed F
  route_to_peers m from w =
      let n = w.node in
      let mine = stat_for_destination env.floats n m.recipient env.unix in
      route_loop env.floats (the_forwarder n) mine from (routing_candidates n from)
        (record { world = w; message = m })
