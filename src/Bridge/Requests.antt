-- ===== src/Bridge/Requests.antt =====
-- go-daemon/pkg/wsbridge/bridge.go: the frames of a client.
use ripple.Prelude.{
  ℕ, Text, bytes, pos, Option, none, some, [], ◌==◌, is_empty, text_eq, Dict, if◌then◌else◌,
}
use ripple.Message.{Message, SosPayload}
use ripple.Message.Kinds.{type_chat, sos_urgency_high}
use ripple.Message.Make.{new_chat, new_key_exchange}
use ripple.Crypto.{done, failed}
use ripple.Crypto.Manager.{Manager, my_public_key_hex, encrypt_message}
use ripple.Sos.{Manager as SosManager, send_alert}
use ripple.FileTransfer.{Transfer}
use ripple.FileTransfer.Send.{send_file}
use ripple.Identity.{Identity, Result}
use ripple.Identity.Mnemonic.{export_mnemonic}
use ripple.Bridge.{
  Problem, malformed_message, unknown_type, e2e_not_available, requires_recipient, send_failed,
  sos_not_available, invalid_sos_payload, requires_message, files_not_available,
  invalid_file_payload, requires_file_path, requires_id, transfer_failed, identity_not_available,
  seed_export_failed, seed_frame, error_frame, pong_frame, Bridge, WsIncoming, Outside,
}
use ripple.Bridge.Clients.{send_to}
use ripple.Bridge.Feed.{call_back}
use ripple.Bridge.Calls.{at_rest, after_call, send_mesh, hear_files}

module _ {F P Q : Type 0} where
  -- `sendError` and `sendPong`
  unfoldable pub send_error : ℕ → Problem → Bridge F P Q → Bridge F P Q
  send_error n problem b = send_to n (error_frame problem) b

  unfoldable pub send_pong : ℕ → Bridge F P Q → Bridge F P Q
  send_pong n b = send_to n pong_frame b

  -- The end of `handleIncomingSOS`, by the ID of the alert.
  unfoldable pub after_alert : ℕ → Option Text → Bridge F P Q → Bridge F P Q
  after_alert n none b = send_error n send_failed b
  after_alert n (some id) b = b

  -- The reply of `handleSeedExport`.
  unfoldable pub reply_seed : ℕ → Result Text → Bridge F P Q → Bridge F P Q
  reply_seed n (ripple.Identity.failed e) b = send_error n seed_export_failed b
  reply_seed n (ripple.Identity.done phrase) b = send_to n (seed_frame phrase) b

module _ {F P Q : Type 0} (o : Outside F P Q) where
  -- `SendMessage`, with an error frame where it fails.
  unfoldable pub send_or_complain : ℕ → Message → Bridge F P Q → Bridge F P Q
  send_or_complain n msg b =
      let sent = send_mesh o msg b in if sent.1 then sent.0 else send_error n send_failed sent.0

  -- The message of `handleIncomingChat`.
  unfoldable pub chat_of : WsIncoming → Bridge F P Q → Message
  chat_of i b =
      let given : Message = record {
        id = i.id;
        kind = type_chat;
        sender = b.peer_id;
        sender_nick = b.nickname;
        recipient = i.recipient;
        payload = i.payload;
        timestamp = elim i.timestamp [
          | pos t ↦ if t == 0 then o.now else i.timestamp
          | _ ↦ i.timestamp
        ];
        ttl = pos 16;
        hop_count = pos 0;
        spray_budget = pos 0;
        copies_made = pos 0;
        nonce = [];
        key_id = [];
      } in
      if is_empty i.id
      then new_chat o.new_id o.now b.peer_id b.nickname i.recipient i.payload
      else given

  -- The message after the attempt to encrypt it; where that fails it goes out as it is.
  unfoldable pub seal_chat : Message → Bridge F P Q → Message × Bridge F P Q
  seal_chat msg b = elim (if is_empty msg.recipient then none else b.e2e) [
    | none ↦ (msg, b)
    | some m ↦
        let tried = encrypt_message o.nacl o.nonce msg m in
        let sealed : Message = elim tried.0 [ failed e ↦ msg | done x ↦ x ] in
        (sealed, record b { e2e = some tried.1 })
  ]

  -- `handleIncomingChat`
  unfoldable pub handle_incoming_chat : ℕ → WsIncoming → Bridge F P Q → Bridge F P Q
  handle_incoming_chat n i b =
      let sealed = seal_chat (chat_of i b) b in send_or_complain n sealed.0 sealed.1

  unfoldable pub key_exchange_of : WsIncoming → Manager → Bridge F P Q → Message
  key_exchange_of i m b =
      let msg =
        new_key_exchange o.env.json o.new_id o.now o.now b.peer_id b.nickname
          (my_public_key_hex m) in
      record msg { recipient = i.recipient }

  -- `handleIncomingKeyExchange`
  unfoldable pub handle_incoming_key_exchange : ℕ → WsIncoming → Bridge F P Q → Bridge F P Q
  handle_incoming_key_exchange n i b = elim b.e2e [
    | none ↦ send_error n e2e_not_available b
    | some m ↦
        if is_empty i.recipient
        then send_error n requires_recipient b
        else send_or_complain n (key_exchange_of i m b) b
  ]

  -- `SendAlert`, and what it tells the bridge.
  unfoldable pub start_alert : ℕ → SosPayload F → SosManager F → Bridge F P Q → Bridge F P Q
  start_alert n p m b =
      let level = if is_empty p.urgency then sos_urgency_high else p.urgency in
      let sent =
        send_alert o.env o.now o.milli o.new_id b.peer_id b.nickname p.message level p.latitude
          p.longitude p.accuracy (record m { world = at_rest b.world; notices = [] }) in
      let after = after_call o sent.0.world (record b { sos = some sent.0 }) in
      let told = call_back o sent.0.notices after in after_alert n sent.1 told

  -- `handleIncomingSOS`
  unfoldable pub handle_incoming_sos : ℕ → WsIncoming → Bridge F P Q → Bridge F P Q
  handle_incoming_sos n i b = elim b.sos [
    | none ↦ send_error n sos_not_available b
    | some m ↦ elim (o.env.json.to_sos i.payload) [
      | none ↦ send_error n invalid_sos_payload b
      | some p ↦ if is_empty p.message then send_error n requires_message b else start_alert n p m b
    ]
  ]

  -- `SendFile`: a path that does not open is an error.
  unfoldable pub start_file :
      ℕ → WsIncoming → Text → Dict (Transfer F) → Bridge F P Q → Bridge F P Q
  start_file n i path transfers b = elim (o.file_at path) [
    | none ↦ send_error n transfer_failed b
    | some (name, size, reads) ↦
        let sent =
          send_file o.transfers o.extension name size reads i.recipient b.nickname i.id o.file_id
            transfers in
        hear_files o sent.1.callbacks (record b { files = some sent.0 })
  ]

  -- `handleIncomingFile`
  unfoldable pub handle_incoming_file : ℕ → WsIncoming → Bridge F P Q → Bridge F P Q
  handle_incoming_file n i b = elim b.files [
    | none ↦ send_error n files_not_available b
    | some transfers ↦
        if is_empty i.recipient
        then send_error n requires_recipient b
        else elim (o.to_file_path i.payload) [
          | none ↦ send_error n invalid_file_payload b
          | some path ↦
              if is_empty path
              then send_error n requires_file_path b
              else if is_empty i.id
              then send_error n requires_id b
              else start_file n i path transfers b
        ]
  ]

  -- `handleSeedExport`
  unfoldable pub handle_seed_export : ℕ → Bridge F P Q → Bridge F P Q
  handle_seed_export n b = elim b.identity [
    | none ↦ send_error n identity_not_available b
    | some id ↦ reply_seed n (export_mnemonic o.keys id) b
  ]

  unfoldable pub handle_request : ℕ → WsIncoming → Bridge F P Q → Bridge F P Q
  handle_request n i b =
      if text_eq i.kind (bytes "chat")
      then handle_incoming_chat n i b
      else if text_eq i.kind (bytes "key_exchange")
      then handle_incoming_key_exchange n i b
      else if text_eq i.kind (bytes "sos")
      then handle_incoming_sos n i b
      else if text_eq i.kind (bytes "file")
      then handle_incoming_file n i b
      else if text_eq i.kind (bytes "seed_export")
      then handle_seed_export n b
      else if text_eq i.kind (bytes "ping")
      then send_pong n b
      else send_error n (unknown_type i.kind) b

  -- `handleIncoming`, of the bytes that the client sent.
  unfoldable pub handle_incoming : ℕ → Text → Bridge F P Q → Bridge F P Q
  handle_incoming n text b = elim (o.to_incoming text) [
    | none ↦ send_error n malformed_message b
    | some i ↦ handle_request n i b
  ]
