-- ===== src/Message/Make.antt =====
-- go-daemon/pkg/message/message.go: the constructors. `id` is what `newID` returned and `now` what
-- the clock showed; a payload that bears a time of its own has it as a second reading.
use ripple.Prelude.{
  Text, bytes, ℤ, pos, Option, none, some, [], true, is_empty, text_eq, hex_encode,
}
use ripple.Prelude.{if◌then◌else◌}
use ripple.Message.{Message, DeliveryInfo, SosPayload, FileMessagePayload, KeyExchangePayload, Json}
use ripple.Message.Kinds.{type_chat, type_file, type_sos, type_delivery_ack, type_key_exchange}

-- `newID`, from the 16 bytes that the random source gave.
unfoldable pub new_id : Text → Text
new_id random = hex_encode random

-- A message with the fields that every constructor gives, and the others at Go's zero values.
abbrev envelope : Text → Text → Text → Text → Text → Text → ℤ → ℤ → Message
envelope id kind sender nick recipient payload now ttl = record {
  id = id;
  kind = kind;
  sender = sender;
  sender_nick = nick;
  recipient = recipient;
  payload = payload;
  timestamp = now;
  ttl = ttl;
  hop_count = pos 0;
  spray_budget = pos 0;
  copies_made = pos 0;
  nonce = [];
  key_id = [];
}

unfoldable pub new_chat : Text → ℤ → Text → Text → Text → Text → Message
new_chat id now sender nick recipient text =
    envelope id type_chat sender nick recipient text now (pos 16)

module _ {F : Type 0} (json : Json F) where
  -- `NewDeliveryAck(sender, ackForID, recipient, status, hopCount, errMsg)`
  unfoldable pub new_delivery_ack : Text → ℤ → ℤ → Text → Text → Text → Text → ℤ → Text → Message
  new_delivery_ack id stamped now sender ack_for recipient status hops err =
      let info : DeliveryInfo = record {
        message_id = ack_for;
        status = status;
        recipient_peer = recipient;
        original_sender = sender;
        timestamp = stamped;
        hop_count = hops;
        error = err;
      } in
      envelope id type_delivery_ack sender [] recipient (json.of_delivery info) now (pos 4)

  unfoldable pub new_delivery_status : Text → ℤ → ℤ → Text → Text → Text → Text → Message
  new_delivery_status id stamped now sender recipient original status =
      new_delivery_ack id stamped now sender original recipient status (pos 0) []

  -- `DeserializeMessage`: a message without an ID is an error.
  unfoldable pub deserialize_message : Text → Option Message
  deserialize_message text = elim (json.to_message text) [
    | none ↦ none
    | some m ↦ if is_empty m.id then none else some m
  ]

  -- `zero` is Go's 0.0.
  unfoldable pub new_file_metadata :
      F → ℤ → Text → Text → Text → Text → Text → Text → ℤ → ℤ → Message
  new_file_metadata zero now sender nick recipient file_id name mime size chunks =
      let payload : FileMessagePayload F = record {
        file_id = file_id;
        file_name = name;
        file_size = size;
        mime_type = mime;
        chunk_count = chunks;
        chunk_idx = pos 0;
        chunk_size = pos 0;
        status = bytes "started";
        progress = zero;
        output_path = [];
      } in
      envelope file_id type_file sender nick recipient (json.of_file payload) now (pos 16)

  unfoldable pub new_file_progress : Text → ℤ → Text → Text → Text → ℤ → ℤ → F → Message
  new_file_progress id now sender recipient file_id idx chunks progress =
      let payload : FileMessagePayload F = record {
        file_id = file_id;
        file_name = [];
        file_size = pos 0;
        mime_type = [];
        chunk_count = chunks;
        chunk_idx = idx;
        chunk_size = pos 0;
        status = bytes "progress";
        progress = progress;
        output_path = [];
      } in
      envelope id type_file sender [] recipient (json.of_file payload) now (pos 4)

  unfoldable pub new_file_complete : F → Text → ℤ → Text → Text → Text → Text → Text → Message
  new_file_complete zero id now sender recipient file_id name path =
      let payload : FileMessagePayload F = record {
        file_id = file_id;
        file_name = name;
        file_size = pos 0;
        mime_type = [];
        chunk_count = pos 0;
        chunk_idx = pos 0;
        chunk_size = pos 0;
        status = bytes "complete";
        progress = zero;
        output_path = path;
      } in
      envelope id type_file sender [] recipient (json.of_file payload) now (pos 4)

  unfoldable pub new_sos : Text → ℤ → ℤ → Text → Text → Text → Text → F → F → F → Message
  new_sos id stamped now sender nick text urgency lat lon accuracy =
      let payload : SosPayload F = record {
        urgency = urgency;
        message = text;
        latitude = lat;
        longitude = lon;
        accuracy = accuracy;
        timestamp = stamped;
        auto_expire = pos 60;
        ack_required = true;
      } in
      envelope id type_sos sender nick [] (json.of_sos payload) now (pos 64)

  unfoldable pub parse_sos_payload : Message → Option (SosPayload F)
  parse_sos_payload m = if text_eq m.kind type_sos then json.to_sos m.payload else none

  unfoldable pub new_key_exchange : Text → ℤ → ℤ → Text → Text → Text → Message
  new_key_exchange id stamped now sender nick pubkey =
      let payload : KeyExchangePayload = record {
        public_key_hex = pubkey;
        nickname = nick;
        timestamp = stamped;
      } in
      envelope id type_key_exchange sender nick [] (json.of_key payload) now (pos 8)
