-- ===== src/Sos.antt =====
-- go-daemon/pkg/sos/sos.go: the manager of the emergency alerts.
-- The state is the alerts by message ID, the mesh node they are sent through, and, newest first, what
-- the manager told the bridge. `now` is the clock in nanoseconds, read once in a handler. The tickers
-- call `re_broadcast_active` and `check_expiry`. Each operation is one step: the source looks an alert up and
-- inserts it under two locks, so what is shown of a sequence of operations holds of calls that do not overlap.
pub mod Expiry
pub mod Once
mod Tests
use ripple.Prelude.{
  ℕ, Text, bytes, ℤ, pos, Option, none, some, List, [], ◌∷◌, Bool, true, false, Dict, lookup,
}
use ripple.Prelude.{
  insert, erase, map, contains, ltb_ℤ, leb_ℤ, ◌+ℤ◌, dec, inc, is_empty, if◌then◌else◌,
}
use ripple.Message.{Message, SosPayload}
use ripple.Message.Kinds.{type_sos, sos_urgency_high, delivery_received}
use ripple.Message.Make.{new_sos, parse_sos_payload, new_delivery_ack}
use ripple.Mesh.Node.{World, Env}
use ripple.Mesh.Handle.{send_message, publish_message}

-- `ActiveAlert`
pub record ActiveAlert (F : Type 0) : Type 0 where
  pub message : Message
  pub payload : SosPayload F
  pub started_at : ℤ
  pub expires_at : ℤ
  pub ack_count : ℤ
  pub received_at : ℤ
  pub sender_peer : Text

-- The callbacks, and the attempt to send an acknowledgement over a stream.
pub data Notice (F : Type 0) : Type 0 where
  on_sos_received : ActiveAlert F → Notice F
  on_sos_expired : Text → Notice F
  on_sos_ack : Text → Text → Notice F
  send_ack : Text → Message → Notice F

pub record Manager (F : Type 0) : Type 0 where
  pub alerts : Dict (ActiveAlert F)
  pub world : World F
  pub notices : List (Notice F)

-- `ActiveDuration`: 60 minutes, in nanoseconds.
abbrev pub active_duration : ℤ
active_duration = pos 3600000000000

module _ {F : Type 0} where
  abbrev pub tell : Notice F → Manager F → Manager F
  tell n m = record m { notices = n ∷ m.notices }

  abbrev pub put_alert : Text → ActiveAlert F → Manager F → Manager F
  put_alert id a m = record m { alerts = insert id a m.alerts }

  unfoldable pub new_alert : Message → SosPayload F → Text → ℤ → ActiveAlert F
  new_alert msg payload peer now = record {
    message = msg;
    payload = payload;
    started_at = now;
    expires_at = now +ℤ active_duration;
    ack_count = pos 0;
    received_at = now;
    sender_peer = peer;
  }

module _ {F : Type 0} (env : Env F) (now : ℤ) where
  -- `SendAlert` behind the payload's parse: the manager, and the message's ID if it was sent.
  unfoldable pub send_parsed : Message → SosPayload F → Manager F → Manager F × Option Text
  send_parsed msg payload m =
      let alert = new_alert msg payload m.world.node.peer_id now in
      let tracked = put_alert msg.id alert m in
      let sent = send_message env msg m.world in
      if sent.1
      then (tell (on_sos_received alert) (record tracked { world = sent.0 }), some msg.id)
      else (record tracked { alerts = erase msg.id tracked.alerts; world = sent.0 }, none)

  -- `SendAlert`; `milli` is the clock in milliseconds.
  unfoldable pub send_alert :
      ℤ → Text → Text → Text → Text → Text → F → F → F → Manager F → Manager F × Option Text
  send_alert milli id sender nick text urgency lat lon accuracy m =
      let level = if is_empty urgency then sos_urgency_high else urgency in
      let msg = new_sos env.json id milli now sender nick text level lat lon accuracy in
      elim (parse_sos_payload env.json msg) [
        | none ↦ (m, none)
        | some payload ↦ send_parsed msg payload m
      ]

  -- The acknowledgement of an alert that asks for one; `ack_id` is what `newID` returned.
  unfoldable pub acknowledge_sos : Message → SosPayload F → Text → Manager F → Manager F
  acknowledge_sos msg payload peer m =
      let ack =
        new_delivery_ack env.json env.ack_id now now m.world.node.peer_id msg.id msg.sender
          delivery_received msg.hop_count [] in
      if payload.ack_required then tell (send_ack peer ack) m else m

  -- `HandleIncomingSOS` of an alert that is parsed, by whether it is known.
  unfoldable pub track : Message → SosPayload F → Text → Manager F → Manager F
  track msg payload peer m = elim (lookup msg.id m.alerts) [
    | some existing ↦ put_alert msg.id (record existing { received_at = now }) m
    | none ↦
        let alert = new_alert msg payload peer now in
        tell (on_sos_received alert) (acknowledge_sos msg payload peer (put_alert msg.id alert m))
  ]

  -- `HandleIncomingSOS`: the manager, and whether there was no error.
  unfoldable pub handle_incoming_sos : Message → Manager F → Manager F × Bool
  handle_incoming_sos msg m = elim (parse_sos_payload env.json msg) [
    | none ↦ (m, false)
    | some payload ↦ elim (env.decode msg.sender) [
      | none ↦ (m, false)
      | some peer ↦ (track msg payload peer m, true)
    ]
  ]

  -- `CancelAlert`
  unfoldable pub cancel_alert : Text → Manager F → Manager F
  cancel_alert id m =
      if contains id m.alerts
      then tell (on_sos_expired id) (record m { alerts = erase id m.alerts })
      else m

  unfoldable pub active_alerts : Manager F → List (ActiveAlert F)
  active_alerts m = map (λ e. e.1) m.alerts

  unfoldable pub get_alert : Text → Manager F → Option (ActiveAlert F)
  get_alert id m = lookup id m.alerts

  -- `HandleDeliveryAck`
  unfoldable pub handle_delivery_ack : Message → Manager F → Manager F
  handle_delivery_ack ack m = elim (env.json.to_delivery ack.payload) [
    | none ↦ m
    | some info ↦ elim (lookup info.message_id m.alerts) [
      | none ↦ m
      | some alert ↦
          tell (on_sos_ack info.message_id ack.sender)
            (put_alert info.message_id (record alert { ack_count = inc alert.ack_count }) m)
    ]
  ]

  -- The message of a re-broadcast.
  unfoldable pub rebroadcast : ActiveAlert F → Message
  rebroadcast alert = record {
    id = alert.message.id;
    kind = type_sos;
    sender = alert.message.sender;
    sender_nick = alert.message.sender_nick;
    recipient = [];
    payload = alert.message.payload;
    timestamp = now;
    ttl = dec alert.message.ttl;
    hop_count = inc alert.message.hop_count;
    spray_budget = pos 0;
    copies_made = pos 0;
    nonce = [];
    key_id = [];
  }

  -- `now.After(alert.ExpiresAt)`
  unfoldable pub is_over : ActiveAlert F → Bool
  is_over alert = ltb_ℤ alert.expires_at now

  unfoldable pub re_broadcast_loop : List (ActiveAlert F) → World F → World F
  re_broadcast_loop [] w = w
  re_broadcast_loop (alert ∷ rest) w =
      let again = rebroadcast alert in
      let skipped = re_broadcast_loop rest w in
      let published = re_broadcast_loop rest (publish_message env again w).0 in
      if is_over alert then skipped else if leb_ℤ again.ttl (pos 0) then skipped else published

  -- `reBroadcastActive`
  unfoldable pub re_broadcast_active : Manager F → Manager F
  re_broadcast_active m = record m { world = re_broadcast_loop (active_alerts m) m.world }

  -- The loop of `checkExpiry` over the keys of the map: the alerts that are left, and the IDs removed.
  unfoldable pub expire_loop :
      List Text → Dict (ActiveAlert F) → List Text → Dict (ActiveAlert F) × List Text
  expire_loop [] alerts ids = (alerts, ids)
  expire_loop (id ∷ rest) alerts ids =
      let kept = expire_loop rest alerts ids in
      let removed = expire_loop rest (erase id alerts) (id ∷ ids) in
      elim (lookup id alerts) [ none ↦ kept | some a ↦ if is_over a then removed else kept ]

  unfoldable pub tell_expired : List Text → Manager F → Manager F
  tell_expired [] m = m
  tell_expired (id ∷ ids) m = tell_expired ids (tell (on_sos_expired id) m)

  -- `checkExpiry`
  unfoldable pub check_expiry : Manager F → Manager F
  check_expiry m =
      let p = expire_loop (map (λ e. e.0) m.alerts) m.alerts [] in
      tell_expired p.1 (record m { alerts = p.0 })
