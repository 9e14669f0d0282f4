-- ===== src/Mesh/Handle.antt =====
-- go-daemon/pkg/mesh/mesh.go: sending, forwarding and receiving a message.
use ripple.Prelude.{Text, pos, none, some, [], ◌∷◌, Bool, true, false, not, ◌&&◌, ◌||◌}
use ripple.Prelude.{ltb_ℤ, text_eq, is_empty, member, if◌then◌else◌}
use ripple.Message.{Message}
use ripple.Message.Kinds.{type_chat, type_file, type_sos, delivery_received}
use ripple.Message.Hops.{decrement_ttl}
use ripple.Message.Make.{new_delivery_ack, deserialize_message}
use ripple.Mesh.Node.{
  RelayAction, publish, direct, on_message, Node, World, Env, emit, emit_relay, with_node, add_peer,
  note_encounter,
}
use ripple.Mesh.Route.{route_to_peers}

-- The original counts as a copy.
unfoldable pub first_copy : Message → Message
first_copy m = if ltb_ℤ m.copies_made (pos 1) then record m { copies_made = pos 1 } else m

module _ {F : Type 0} where
  -- An addressed message at a node with a budget.
  unfoldable pub is_routed : Node F → Message → Bool
  is_routed n m = not (is_empty m.recipient) && ltb_ℤ (pos 0) n.spray_budget

module _ {F : Type 0} (env : Env F) where
  -- `Publish`: the message, if the topic takes it.
  unfoldable pub publish_message : Message → World F → World F × Bool
  publish_message m w = if env.publishes then (emit (publish m) w, true) else (w, false)

  -- A direct stream to the recipient first, where its string is a peer ID; else the topic.
  unfoldable pub send_or_publish : Message → World F → World F × Bool
  send_or_publish m w = elim (if is_empty m.recipient then none else env.decode m.recipient) [
    | none ↦ publish_message m w
    | some pid ↦
        let tried = emit (direct pid m) w in
        if env.reaches pid then (tried, true) else publish_message m tried
  ]

  -- `SendMessage`: the world after it, and whether it returned no error.
  unfoldable pub send_message : Message → World F → World F × Bool
  send_message m w =
      let first = first_copy m in
      let announced = emit_relay RelayAction.sent [] (record first { hop_count = pos 0 }) w in
      if is_routed w.node m
      then ((route_to_peers env first [] announced).world, true)
      else send_or_publish m (emit_relay RelayAction.sent [] (record m { hop_count = pos 0 }) w)

  -- The message as `SendMessage` leaves it, which counts its copies in place.
  unfoldable pub sent_message : Message → World F → Message
  sent_message m w =
      let first = first_copy m in
      let announced = emit_relay RelayAction.sent [] (record first { hop_count = pos 0 }) w in
      if is_routed w.node m then (route_to_peers env first [] announced).message else m

  -- The message as `forwardMessage` leaves it.
  unfoldable pub forwarded_message : Message → Text → World F → Message
  forwarded_message m from w =
      if is_routed w.node m then (route_to_peers env m from w).message else m

  -- `forwardMessage`. The topic is written by a goroutine, and only once the node has started.
  unfoldable pub forward_message : Message → Text → World F → World F
  forward_message m from w =
      let told = emit_relay RelayAction.forwarded from m w in
      if is_routed w.node m
      then (route_to_peers env m from w).world
      else if w.node.started
      then (publish_message m told).0
      else told

  -- `senderErr != nil || senderPID != n.Host.ID()`
  unfoldable pub is_foreign : Node F → Message → Bool
  is_foreign n m = elim (env.decode m.sender) [
    | none ↦ true
    | some pid ↦ not (text_eq pid n.peer_id)
  ]

  unfoldable pub add_sender : Message → World F → World F
  add_sender m w = elim (env.decode m.sender) [
    | none ↦ w
    | some pid ↦ if text_eq pid w.node.peer_id then w else add_peer pid w
  ]

  -- The relaying part: the message as it stands afterwards, and the world.
  unfoldable pub relay_on : Message → Text → World F → Message × World F
  relay_on m from w =
      let onward = decrement_ttl m in
      if is_foreign w.node m
      then (if ltb_ℤ (pos 0) m.ttl
          then (forwarded_message onward from w, forward_message onward from w)
          else (m, emit_relay RelayAction.dropped from m w))
      else (m, w)

  unfoldable pub wants_ack : Node F → Message → Bool
  wants_ack n m =
      (text_eq m.recipient n.peer_id && not (text_eq m.sender n.peer_id))
      && (text_eq m.kind type_chat || (text_eq m.kind type_file || text_eq m.kind type_sos))

  unfoldable pub acknowledgement : Node F → Message → Message
  acknowledgement n m =
      let ack =
        new_delivery_ack env.json env.ack_id env.nano env.nano n.peer_id m.id m.sender
          delivery_received (pos 0) [] in
      record ack { ttl = pos 8 }

  unfoldable pub acknowledge : Message → World F → World F
  acknowledge m w =
      let after = (send_message (acknowledgement w.node m) w).0 in
      if wants_ack w.node m then after else w

  -- The message is new: it is marked, its bearer was met, and the arrival is told.
  unfoldable pub arrival : Message → Text → World F → World F
  arrival m from w =
      let n = w.node in
      let marked = record n { seen = m.id ∷ n.seen } in
      let met = if is_empty from then marked else note_encounter env.floats from env.unix marked in
      emit_relay RelayAction.received from m (with_node met w)

  -- What `deliverMessage` does behind the test for duplicates.
  unfoldable pub deliver_new : Message → Text → World F → World F
  deliver_new m from w =
      let p = relay_on m from (add_sender m (arrival m from w)) in
      acknowledge p.0 (emit (on_message p.0) p.1)

  unfoldable pub deliver_message : Message → Text → World F → World F
  deliver_message m from w =
      if member m.id w.node.seen
      then emit_relay RelayAction.dropped from m w
      else deliver_new m from w

  -- `handleStream`, from the bytes that were read.
  unfoldable pub handle_stream : Text → Text → World F → World F
  handle_stream pid text w =
      let joined = add_peer pid w in
      elim (deserialize_message env.json text) [
        | none ↦ joined
        | some m ↦ deliver_message m pid joined
      ]

  -- One round of `handlePubSub`.
  unfoldable pub handle_pub_sub : Text → Text → World F → World F
  handle_pub_sub relay_peer text w = elim (deserialize_message env.json text) [
    | none ↦ w
    | some m ↦ deliver_message m relay_peer w
  ]
