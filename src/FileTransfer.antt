-- ===== src/FileTransfer.antt =====
-- go-daemon/pkg/filetransfer/transfer.go: files sent in chunks over a stream.
-- A transfer is followed on its own, from the handler that makes it to the one that ends it; the manager
-- keeps it by its file ID. A packet is a value, since `encoding/json` writes and reads it, and a read of
-- the stream or the file is `none` where it failed. `body` is the field `Data`.
pub mod Send
pub mod Receive
pub mod Chunks
pub mod RoundTrip
pub mod Pieces
pub mod Whole
pub mod Tests
use ripple.Prelude.{
  ℕ, Text, bytes, ℤ, pos, Option, none, some, List, [], ◌∷◌, Bool, true, false, Dict, lookup,
}
use ripple.Prelude.{insert, map, if◌then◌else◌}
use ripple.Message.{Message, Json}

pub record FileMetadata : Type 0 where
  pub file_id : Text
  pub name : Text
  pub size : ℤ
  pub mime_type : Text
  pub chunk_count : ℤ
  pub sender : Text
  pub sender_nick : Text
  pub recipient : Text
  pub timestamp : ℤ

pub record FileChunk : Type 0 where
  pub file_id : Text
  pub chunk_idx : ℤ
  pub chunk_count : ℤ
  pub body : Text
  pub size : ℤ

pub data TransferStatus : Type 0 where
  pending sending receiving complete failed cancelled : TransferStatus

-- The map of chunks has the newest entry of an index first.
pub record Transfer (F : Type 0) : Type 0 where
  pub metadata : FileMetadata
  pub status : TransferStatus
  pub progress : F
  pub received : ℤ
  pub chunks : List (ℕ × FileChunk)
  pub output_path : Text

pub record StreamPacket : Type 0 where
  pub kind : Text
  pub metadata : Option FileMetadata
  pub chunk : Option FileChunk

-- The errors that `failTransfer` is given.
pub data Failure : Type 0 where
  decode_recipient : Failure
  open_stream : Failure
  send_metadata : Failure
  read_chunk : ℕ → Failure
  send_chunk : ℕ → Failure
  unexpected_packet : ℕ → Failure
  out_of_range : ℤ → Failure
  size_mismatch : ℤ → Failure
  create_output : Failure
  missing_chunk : ℕ → Failure
  write_chunk : ℕ → Failure

-- The callbacks.
pub data Callback (F : Type 0) : Type 0 where
  on_started : Text → Callback F
  on_progress : Text → F → Callback F
  on_complete : Text → Callback F
  on_failed : Text → Failure → Callback F
  on_file_notification : Message → Callback F

-- The transfer, the packets written to the stream in their order, and the callbacks, newest first.
pub record Session (F : Type 0) : Type 0 where
  pub transfer : Transfer F
  pub wire : List StreamPacket
  pub callbacks : List (Callback F)

-- What a transfer draws from outside: float64 division and its test against 1.0, JSON, the local peer
-- ID, the parser of peer IDs, the IDs and the clock of the notifications, the stream and the disk.
-- Packet 0 of a stream is the metadata, and packet i + 1 chunk i.
pub record Surroundings (F : Type 0) : Type 0 where
  pub zero : F
  pub one : F
  pub fraction : ℤ → ℤ → F
  pub above_one : F → Bool
  pub json : Json F
  pub local_peer : Text
  pub is_peer_id : Text → Bool
  pub notification_id : ℕ → Text
  pub now : ℤ
  pub opens : Bool
  pub writes_packet : ℕ → Bool
  pub creates : Bool
  pub writes_chunk : ℕ → Bool
  pub incoming_path : Text → Text

unfoldable pub is_complete : TransferStatus → Bool
is_complete complete = true
is_complete _ = false

module _ {F : Type 0} where
  abbrev pub call : Callback F → Session F → Session F
  call c s = record s { callbacks = c ∷ s.callbacks }

  abbrev pub with_transfer : Transfer F → Session F → Session F
  with_transfer t s = record s { transfer = t }

  unfoldable pub fail_transfer : Failure → Session F → Session F
  fail_transfer reason s =
      let t = s.transfer in
      call (on_failed t.metadata.file_id reason) (with_transfer (record t { status = failed }) s)

  unfoldable pub get_transfer : Text → Dict (Transfer F) → Option (Transfer F)
  get_transfer id transfers = lookup id transfers

  unfoldable pub list_transfers : Dict (Transfer F) → List (Transfer F)
  list_transfers transfers = map (λ e. e.1) transfers

  -- `CancelTransfer`: the transfers, and whether there was no error.
  unfoldable pub cancel_transfer : Text → Dict (Transfer F) → Dict (Transfer F) × Bool
  cancel_transfer id transfers = elim (lookup id transfers) [
    | none ↦ (transfers, false)
    | some t ↦
        if is_complete t.status
        then (transfers, false)
        else (insert id (record t { status = cancelled }) transfers, true)
  ]

module _ {F : Type 0} (env : Surroundings F) where
  -- `Progress`
  unfoldable pub progress_of : Text → Dict (Transfer F) → F
  progress_of id transfers = elim (lookup id transfers) [ none ↦ env.zero | some t ↦ t.progress ]

  -- The part of the size that was moved, at most 1.
  unfoldable pub capped : ℤ → ℤ → F
  capped moved size = let p = env.fraction moved size in if env.above_one p then env.one else p
