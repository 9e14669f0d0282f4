-- ===== src/Message/Kinds.antt =====
-- The string constants of go-daemon/pkg/message/message.go.
use ripple.Prelude.{Text, bytes}

-- `MessageType`
abbrev pub type_chat : Text
type_chat = bytes "chat"

abbrev pub type_file : Text
type_file = bytes "file"

abbrev pub type_sos : Text
type_sos = bytes "sos"

abbrev pub type_delivery_ack : Text
type_delivery_ack = bytes "delivery_ack"

abbrev pub type_peer_info : Text
type_peer_info = bytes "peer_info"

abbrev pub type_key_exchange : Text
type_key_exchange = bytes "key_exchange"

-- `DeliveryStatus`
abbrev pub delivery_received : Text
delivery_received = bytes "received"

-- `SOSUrgency`
abbrev pub sos_urgency_high : Text
sos_urgency_high = bytes "high"
