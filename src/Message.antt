-- ===== src/Message.antt =====
-- go-daemon/pkg/message/message.go: the envelope of every mesh message, the payloads, the
-- constructors of the kinds of message, and the hop counters.
-- A Go string is a list of bytes and an `int` an integer. What the code draws from outside (the
-- random ID, the clock) is an argument. JSON texts are written and read by `encoding/json`, which
-- enters as the record `Json`. Floating-point numbers are of a type `F`, which nothing here
-- computes on.
pub mod Kinds
pub mod Make
pub mod Hops
use ripple.Prelude.{Text, ℤ, Option, Bool}

pub record Message : Type 0 where
  pub id : Text
  pub kind : Text
  pub sender : Text
  pub sender_nick : Text
  pub recipient : Text
  pub payload : Text
  pub timestamp : ℤ
  pub ttl : ℤ
  pub hop_count : ℤ
  pub spray_budget : ℤ
  pub copies_made : ℤ
  pub nonce : Text
  pub key_id : Text

pub record DeliveryInfo : Type 0 where
  pub message_id : Text
  pub status : Text
  pub recipient_peer : Text
  pub original_sender : Text
  pub timestamp : ℤ
  pub hop_count : ℤ
  pub error : Text

pub record SosPayload (F : Type 0) : Type 0 where
  pub urgency : Text
  pub message : Text
  pub latitude : F
  pub longitude : F
  pub accuracy : F
  pub timestamp : ℤ
  pub auto_expire : ℤ
  pub ack_required : Bool

pub record FileMessagePayload (F : Type 0) : Type 0 where
  pub file_id : Text
  pub file_name : Text
  pub file_size : ℤ
  pub mime_type : Text
  pub chunk_count : ℤ
  pub chunk_idx : ℤ
  pub chunk_size : ℤ
  pub status : Text
  pub progress : F
  pub output_path : Text

pub record KeyExchangePayload : Type 0 where
  pub public_key_hex : Text
  pub nickname : Text
  pub timestamp : ℤ

-- `json.Marshal` and `json.Unmarshal` at the types that the code passes to them.
pub record Json (F : Type 0) : Type 0 where
  pub of_message : Message → Text
  pub to_message : Text → Option Message
  pub of_delivery : DeliveryInfo → Text
  pub to_delivery : Text → Option DeliveryInfo
  pub of_sos : SosPayload F → Text
  pub to_sos : Text → Option (SosPayload F)
  pub of_file : FileMessagePayload F → Text
  pub to_file : Text → Option (FileMessagePayload F)
  pub of_key : KeyExchangePayload → Text
  pub to_key : Text → Option KeyExchangePayload
