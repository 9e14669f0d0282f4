-- ===== src/Bridge/Feed.antt =====
-- go-daemon/pkg/wsbridge/bridge.go: what the mesh brings, told to the clients.
use ripple.Prelude.{
  ℕ, ◌∷◌, List, Text, bytes, Option, none, some, [], Bool, true, false, is_empty, text_eq, lookup,
  insert, if◌then◌else◌,
}
use ripple.Message.{Message, FileMessagePayload}
use ripple.Message.Kinds.{type_file, type_sos, type_delivery_ack, type_key_exchange}
use ripple.Message.Hops.{is_encrypted}
use ripple.Mesh.Node.{RelayEvent}
use ripple.Crypto.{Outcome, done, failed}
use ripple.Crypto.Manager.{Manager, my_public_key_hex, decrypt_message, handle_key_exchange_message}
use ripple.Sos.{
  Manager as SosManager, Notice, on_sos_received, on_sos_expired, on_sos_ack, send_ack,
  handle_incoming_sos, handle_delivery_ack,
}
use ripple.Bridge.{
  FileDetail, file_started, file_progress, file_complete, file_failed, file_other, identity_frame,
  message_frame, sos_frame, file_frame, delivery_frame, key_frame, relay_frame, peer_frame, Bridge,
  Outside,
}
use ripple.Bridge.Clients.{start_pumps, with_clients, new_client, broadcast, send_to}

-- The fields by status.
unfoldable pub file_detail : {F : Type 0} → Message → FileMessagePayload F → FileDetail F
file_detail msg p =
    if text_eq p.status (bytes "started")
    then file_started p.file_name p.file_size p.mime_type p.chunk_count msg.sender msg.sender_nick
        msg.timestamp
    else if text_eq p.status (bytes "progress")
    then file_progress p.progress p.chunk_idx p.chunk_size
    else if text_eq p.status (bytes "complete")
    then file_complete p.file_name (if is_empty p.output_path then none else some p.output_path)
    else if text_eq p.status (bytes "failed")
    then file_failed msg.sender msg.sender_nick
    else file_other

module _ {F P Q : Type 0} where
  -- `broadcastRelay`
  unfoldable pub broadcast_relay : RelayEvent → Bridge F P Q → Bridge F P Q
  broadcast_relay e b = broadcast (relay_frame e) b

  -- `sendIdentity`
  unfoldable pub send_identity : ℕ → Bridge F P Q → Bridge F P Q
  send_identity n b =
      let key : Text = elim b.e2e [ none ↦ [] | some m ↦ my_public_key_hex m ] in
      send_to n (identity_frame b.peer_id b.nickname key) b

  -- `handleWS` under `clientsMu`, once the connection is upgraded.
  unfoldable pub connect : ℕ → Bridge F P Q → Bridge F P Q
  connect n b = record b { clients = new_client n ∷ b.clients }

  -- The rest of `handleWS`, which does not hold `clientsMu`.
  unfoldable pub greet : ℕ → Bridge F P Q → Bridge F P Q
  greet n b = with_clients (start_pumps n) (send_identity n b)

module _ {F P Q : Type 0} (o : Outside F P Q) where
  -- `BroadcastSOS`: where the payload does not parse, its fields are left at their zero values.
  unfoldable pub broadcast_sos : Message → Bridge F P Q → Bridge F P Q
  broadcast_sos msg b = broadcast (sos_frame msg (o.env.json.to_sos msg.payload)) b

  -- `BroadcastFileNotification`
  unfoldable pub broadcast_file : Message → Bridge F P Q → Bridge F P Q
  broadcast_file msg b = elim (o.env.json.to_file msg.payload) [
    | none ↦ b
    | some p ↦ broadcast (file_frame p.file_id p.status (file_detail msg p)) b
  ]

  -- `BroadcastDeliveryReceipt`
  unfoldable pub broadcast_receipt : Message → Bridge F P Q → Bridge F P Q
  broadcast_receipt msg b = elim (o.env.json.to_delivery msg.payload) [
    | none ↦ b
    | some info ↦ broadcast (delivery_frame info) b
  ]

  -- `getPeerNickname`
  unfoldable pub peer_nickname : Text → Bridge F P Q → Text
  peer_nickname pid b = elim (lookup pid b.nicknames) [
    | none ↦ o.short_string pid
    | some nick ↦ if is_empty nick then o.short_string pid else nick
  ]

  -- `handlePeerJoin` and `handlePeerLeave`
  unfoldable pub handle_peer_join : Text → Bridge F P Q → Bridge F P Q
  handle_peer_join pid b = broadcast (peer_frame pid (peer_nickname pid b) true) b

  unfoldable pub handle_peer_leave : Text → Bridge F P Q → Bridge F P Q
  handle_peer_leave pid b = broadcast (peer_frame pid (peer_nickname pid b) false) b

  -- The first step of `handleMeshMessage`: the sender's nickname is kept.
  unfoldable pub cache_nickname : Message → Bridge F P Q → Bridge F P Q
  cache_nickname msg b = elim (if is_empty msg.sender then none else o.env.decode msg.sender) [
    | none ↦ b
    | some pid ↦
        if is_empty msg.sender_nick
        then b
        else record b { nicknames = insert pid msg.sender_nick b.nicknames }
  ]

  -- The callbacks that the daemon wires, called in their order: `OnSOSReceived` is `BroadcastSOS`, and
  -- `OnSOSExpired` only logs. An acknowledgement goes out on a stream of its own.
  unfoldable pub call_back : List (Notice F) → Bridge F P Q → Bridge F P Q
  call_back [] b = b
  call_back (on_sos_received alert ∷ earlier) b = broadcast_sos alert.message (call_back earlier b)
  call_back (on_sos_expired id ∷ earlier) b = call_back earlier b
  call_back (on_sos_ack id peer ∷ earlier) b = call_back earlier b
  call_back (send_ack peer msg ∷ earlier) b = call_back earlier b

  -- The manager at work: on the bridge's node, and with no notice yet.
  abbrev pub at_work : SosManager F → Bridge F P Q → SosManager F
  at_work m b = record m { world = b.world; notices = [] }

  -- The bridge after a call of the manager, with the node as the call left it.
  unfoldable pub after_work : SosManager F → Bridge F P Q → Bridge F P Q
  after_work m b = call_back m.notices (record b { sos = some m; world = m.world })

  -- An SOS message: the manager first, then the clients.
  unfoldable pub feed_sos : Message → Bridge F P Q → Bridge F P Q
  feed_sos msg b = elim b.sos [
    | none ↦ broadcast_sos msg b
    | some m ↦
        broadcast_sos msg (after_work (handle_incoming_sos o.env o.now msg (at_work m b)).0 b)
  ]

  unfoldable pub feed_receipt : Message → Bridge F P Q → Bridge F P Q
  feed_receipt msg b = elim b.sos [
    | none ↦ broadcast_receipt msg b
    | some m ↦
        broadcast_receipt msg (after_work (handle_delivery_ack o.env o.now msg (at_work m b)) b)
  ]

  -- The end of `handleKeyExchange`.
  unfoldable pub broadcast_key : Message → Bridge F P Q → Bridge F P Q
  broadcast_key msg b = elim (o.env.json.to_key msg.payload) [
    | none ↦ b
    | some payload ↦ broadcast (key_frame msg.sender payload msg.timestamp) b
  ]

  -- What follows `HandleKeyExchangeMessage`, whose panic stops everything.
  unfoldable pub after_key :
      Message → Option (Outcome (Unit {0}) × Manager) → Bridge F P Q → Bridge F P Q
  after_key msg none b = record b { panicked = true }
  after_key msg (some (failed e, m)) b = record b { e2e = some m }
  after_key msg (some (done u, m)) b = broadcast_key msg (record b { e2e = some m })

  -- `handleKeyExchange`
  unfoldable pub handle_key_exchange : Message → Bridge F P Q → Bridge F P Q
  handle_key_exchange msg b = elim b.e2e [
    | none ↦ b
    | some m ↦ after_key msg (handle_key_exchange_message o.env.json o.saves msg m) b
  ]

  -- The cases of `handleMeshMessage`, of a message that was decrypted if it had to be.
  unfoldable pub dispatch : Bool → Message → Bridge F P Q → Bridge F P Q
  dispatch encrypted msg b =
      if text_eq msg.kind type_file
      then broadcast_file msg b
      else if text_eq msg.kind type_sos
      then feed_sos msg b
      else if text_eq msg.kind type_delivery_ack
      then feed_receipt msg b
      else if text_eq msg.kind type_key_exchange
      then handle_key_exchange msg b
      else broadcast (message_frame msg encrypted) b

  -- A message that is not decrypted goes no further.
  unfoldable pub after_decrypt : Outcome Message × Manager → Bridge F P Q → Bridge F P Q
  after_decrypt (failed e, m) b = record b { e2e = some m }
  after_decrypt (done plain, m) b = dispatch true plain (record b { e2e = some m })

  -- `handleMeshMessage` behind the nicknames.
  unfoldable pub decrypt_and_dispatch : Message → Bridge F P Q → Bridge F P Q
  decrypt_and_dispatch msg b = elim (if is_encrypted msg then b.e2e else none) [
    | none ↦ dispatch (is_encrypted msg) msg b
    | some m ↦ after_decrypt (decrypt_message o.nacl msg m) b
  ]

  unfoldable pub handle_mesh_message : Message → Bridge F P Q → Bridge F P Q
  handle_mesh_message msg b = decrypt_and_dispatch msg (cache_nickname msg b)
