-- ===== src/Bridge.antt =====
-- go-daemon/pkg/wsbridge/bridge.go: the WebSocket bridge between the mesh node and the app's clients.
-- A frame is what the code passes to `json.Marshal`, and a client the queue of its `send` channel, oldest
-- frame first; a send or a close on a closed channel, which panics, is noted in it. The node, the alerts,
-- the keys and the transfers are those of their own modules; a manager that is not set is `none`.
pub mod Clients
pub mod Feed
pub mod Calls
pub mod Requests
pub mod Steps
pub mod Keeps
pub mod Served
pub mod Safe
pub mod Author
pub mod Spoken
pub mod NoSpoof
pub mod Secret
pub mod Private
pub mod Alerts
mod Tests
use ripple.Prelude.{ℕ, Text, ℤ, Option, List, Bool, Dict}
use ripple.Message.{Message, DeliveryInfo, SosPayload, KeyExchangePayload}
use ripple.Mesh.Node.{RelayEvent, World, Env}
use ripple.Crypto.{NaCl}
use ripple.Crypto.Manager
use ripple.Sos
use ripple.FileTransfer.{Transfer, Surroundings}
use ripple.Identity.{KeyLibrary, Identity}

-- The fields that depend on the status of a transfer.
pub data FileDetail (F : Type 0) : Type 0 where
  file_started : Text → ℤ → Text → ℤ → Text → Text → ℤ → FileDetail F
  file_progress : F → ℤ → ℤ → FileDetail F
  file_complete : Text → Option Text → FileDetail F
  file_failed : Text → Text → FileDetail F
  file_other : FileDetail F

-- What an error frame says.
pub data Problem : Type 0 where
  malformed_message : Problem
  unknown_type : Text → Problem
  e2e_not_available : Problem
  requires_recipient : Problem
  send_failed : Problem
  sos_not_available : Problem
  invalid_sos_payload : Problem
  requires_message : Problem
  files_not_available : Problem
  invalid_file_payload : Problem
  requires_file_path : Problem
  requires_id : Problem
  transfer_failed : Problem
  identity_not_available : Problem
  seed_export_failed : Problem

pub data Frame (F : Type 0) : Type 0 where
  identity_frame : Text → Text → Text → Frame F
  message_frame : Message → Bool → Frame F
  sos_frame : Message → Option (SosPayload F) → Frame F
  file_frame : Text → Text → FileDetail F → Frame F
  delivery_frame : DeliveryInfo → Frame F
  key_frame : Text → KeyExchangePayload → ℤ → Frame F
  relay_frame : RelayEvent → Frame F
  peer_frame : Text → Text → Bool → Frame F
  seed_frame : Text → Frame F
  error_frame : Problem → Frame F
  pong_frame : Frame F

-- `Client`; `listed` is its entry in the bridge's map, and `pumping` is whether its pumps were started.
pub record Client (F : Type 0) : Type 0 where
  pub num : ℕ
  pub queue : List (Frame F)
  pub listed : Bool
  pub pumping : Bool
  pub closed : Bool
  pub crashed : Bool

-- `Bridge`, with the managers that it is wired to. `panicked` notes a panic in a manager.
pub record Bridge (F P Q : Type 0) : Type 0 where
  pub peer_id : Text
  pub nickname : Text
  pub world : World F
  pub e2e : Option ripple.Crypto.Manager.Manager
  pub identity : Option (Identity P Q)
  pub sos : Option (ripple.Sos.Manager F)
  pub files : Option (Dict (Transfer F))
  pub clients : List (Client F)
  pub nicknames : Dict Text
  pub panicked : Bool

-- `wsIncoming`
pub record WsIncoming : Type 0 where
  pub kind : Text
  pub id : Text
  pub sender : Text
  pub sender_nick : Text
  pub recipient : Text
  pub payload : Text
  pub timestamp : ℤ

-- What a handler draws from outside: the node's surroundings and those of the transfers, the key libraries,
-- the random ID and nonce, the clock, whether the known keys can be saved, a peer's short name, the JSON of
-- a client's frame and of a file path, and the files of the host by path: name, size and reads.
pub record Outside (F P Q : Type 0) : Type 0 where
  pub env : Env F
  pub transfers : Surroundings F
  pub extension : Text → Text
  pub nacl : NaCl
  pub keys : KeyLibrary P Q
  pub new_id : Text
  pub nonce : Option Text
  pub now : ℤ
  pub milli : ℤ
  pub saves : Bool
  pub short_string : Text → Text
  pub to_incoming : Text → Option WsIncoming
  pub to_file_path : Text → Option Text
  pub file_at : Text → Option (Text × ℕ × List (Option Text))
  pub file_id : Text
