-- ===== src/FileTransfer/Receive.antt =====
-- go-daemon/pkg/filetransfer/transfer.go: `handleStream` and `reassembleFile`.
use ripple.Prelude.{
  ℕ, zero, suc, Text, bytes, ℤ, pos, negsuc, ltb_ℤ, leb_ℤ, pos_part, ◌+ℤ◌, Option, none, some, List,
  [], ◌∷◌,
}
use ripple.Prelude.{
  Bool, false, not, ◌&&◌, ◌||◌, ◌==◌, length, is_empty, text_eq, Dict, insert, ◌++◌,
}
use ripple.Prelude.{if◌then◌else◌}
use ripple.Message.Make.{new_file_metadata, new_file_progress, new_file_complete}
use ripple.FileTransfer.{
  FileMetadata, FileChunk, receiving, complete, Transfer, StreamPacket, Failure, read_chunk,
  unexpected_packet, out_of_range, size_mismatch, create_output, missing_chunk, write_chunk,
  on_started, on_progress, on_complete, on_file_notification, Session, Surroundings, call,
  with_transfer, fail_transfer, capped,
}

-- `strings.ContainsAny(name, "\\/")`
unfoldable pub has_separator : Text → Bool
has_separator [] = false
has_separator (c ∷ cs) = (c == b'\\' || c == b'/') || has_separator cs

-- The names that may stand in a path.
unfoldable pub is_safe_name : Text → Bool
is_safe_name name =
    not
      (is_empty name || text_eq name (bytes ".") || text_eq name (bytes "..") || has_separator name)

-- `transfer.Chunks[i]`
unfoldable pub chunk_at : ℕ → List (ℕ × FileChunk) → Option FileChunk
chunk_at i [] = none
chunk_at i ((j, c) ∷ cs) = if i == j then some c else chunk_at i cs

-- What the checks on a packet say: the index and the chunk, or the error.
pub data Verdict : Type 0 where
  accepted : ℕ → FileChunk → Verdict
  refused : Failure → Verdict

unfoldable pub check_index : FileMetadata → FileChunk → ℤ → Verdict
check_index meta c (negsuc n) = refused (out_of_range (negsuc n))
check_index meta c (pos j) =
    if ltb_ℤ (pos j) meta.chunk_count
    then (if leb_ℤ c.size (pos (length c.body)) && leb_ℤ (pos (length c.body)) c.size
        then accepted j c
        else refused (size_mismatch (pos j)))
    else refused (out_of_range (pos j))

-- The packet that was read in round `i`.
unfoldable pub check_packet : FileMetadata → ℕ → Option StreamPacket → Verdict
check_packet meta i none = refused (read_chunk i)
check_packet meta i (some p) = elim (if text_eq p.kind (bytes "chunk") then p.chunk else none) [
  | none ↦ refused (unexpected_packet i)
  | some c ↦ check_index meta c c.chunk_idx
]

-- What a stream leaves behind: the transfers, the session unless the stream was ignored, and the
-- contents of the output file if one was made.
pub record Received (F : Type 0) : Type 0 where
  pub transfers : Dict (Transfer F)
  pub session : Option (Session F)
  pub file : Option Text

module _ {F : Type 0} (env : Surroundings F) where
  -- `reassembleFile` behind the file's creation: what the file holds, and the error.
  unfoldable pub reassemble_file : ℕ → ℕ → List (ℕ × FileChunk) → Text → Text × Option Failure
  reassemble_file zero i chunks out = (out, none)
  reassemble_file (suc rounds) i chunks out = elim (chunk_at i chunks) [
    | none ↦ (out, some (missing_chunk i))
    | some c ↦
        let rest = reassemble_file rounds (suc i) chunks (out ++ c.body) in
        if env.writes_chunk i then rest else (out, some (write_chunk i))
  ]

module _ {F : Type 0} (env : Surroundings F) (meta : FileMetadata) where
  -- A chunk that was accepted: the map, the progress, and who is told of it.
  unfoldable pub take_chunk : ℕ → FileChunk → Session F → Session F
  take_chunk j c s =
      let t = s.transfer in
      let total = t.received +ℤ c.size in
      let p = capped env total meta.size in
      let told =
        new_file_progress env.json (env.notification_id j) env.now meta.sender env.local_peer
          meta.file_id c.chunk_idx meta.chunk_count p in
      record s {
        transfer = record t { chunks = (j, c) ∷ t.chunks; progress = p; received = total };
        callbacks = on_file_notification told ∷ on_progress meta.file_id p ∷ s.callbacks;
      }

  -- The loop, with the rounds to go and what the reads of the stream give.
  unfoldable pub receive_chunks :
      ℕ → ℕ → List (Option StreamPacket) → Session F → Session F × Option Failure
  receive_chunks zero i reads s = (s, none)
  receive_chunks (suc rounds) i [] s = (s, some (read_chunk i))
  receive_chunks (suc rounds) i (p ∷ reads) s = elim (check_packet meta i p) [
    | refused reason ↦ (s, some reason)
    | accepted j c ↦ receive_chunks rounds (suc i) reads (take_chunk j c s)
  ]

  unfoldable pub finish_receiving : Session F → Session F
  finish_receiving s =
      let done : Transfer F = record s.transfer { status = complete; progress = env.one } in
      let told =
        new_file_complete env.json env.zero (env.notification_id (pos_part meta.chunk_count))
          env.now meta.sender env.local_peer meta.file_id meta.name s.transfer.output_path in
      call (on_file_notification told) (call (on_complete meta.file_id) (with_transfer done s))

  unfoldable pub after_reassembly : Session F → Text × Option Failure → Session F × Option Text
  after_reassembly s (out, none) = (finish_receiving s, some out)
  after_reassembly s (out, some reason) = (fail_transfer reason s, some out)

  unfoldable pub after_receiving : Session F × Option Failure → Session F × Option Text
  after_receiving (s, some reason) = (fail_transfer reason s, none)
  after_receiving (s, none) =
      if env.creates
      then after_reassembly s
          (reassemble_file env (pos_part meta.chunk_count) 0 s.transfer.chunks [])
      else (fail_transfer create_output s, none)

  -- The new transfer, behind its notification.
  unfoldable pub start_receiving : Session F
  start_receiving = record {
    transfer = record {
      metadata = meta;
      status = receiving;
      progress = env.zero;
      received = pos 0;
      chunks = [];
      output_path = env.incoming_path (meta.file_id ++ (bytes "_" ++ meta.name));
    };
    wire = [];
    callbacks =
        on_started meta.file_id
        ∷ on_file_notification (
            new_file_metadata env.json env.zero env.now meta.sender meta.sender_nick env.local_peer
              meta.file_id meta.name meta.mime_type meta.size meta.chunk_count)
        ∷ [];
  }

  unfoldable pub receive_file : List (Option StreamPacket) → Dict (Transfer F) → Received F
  receive_file reads transfers =
      let r =
        after_receiving (receive_chunks (pos_part meta.chunk_count) 0 reads start_receiving) in
      record {
        transfers = insert meta.file_id r.0.transfer transfers;
        session = some r.0;
        file = r.1;
      }

  -- The file is for us or for all, and its name may stand in a path.
  unfoldable pub accepts : Bool
  accepts =
      (is_empty meta.recipient || text_eq meta.recipient env.local_peer) && is_safe_name meta.name

module _ {F : Type 0} (env : Surroundings F) where
  -- The metadata of a first packet.
  unfoldable pub metadata_in : StreamPacket → Option FileMetadata
  metadata_in p = if text_eq p.kind (bytes "meta") then p.metadata else none

  unfoldable pub handle_metadata :
      Option FileMetadata → List (Option StreamPacket) → Dict (Transfer F) → Received F
  handle_metadata none reads transfers = record {
    transfers = transfers;
    session = none;
    file = none;
  }
  handle_metadata (some meta) reads transfers =
      if accepts env meta
      then receive_file env meta reads transfers
      else record { transfers = transfers; session = none; file = none }

  -- `handleStream`, from what its reads give.
  unfoldable pub handle_stream : List (Option StreamPacket) → Dict (Transfer F) → Received F
  handle_stream (some p ∷ reads) transfers = handle_metadata (metadata_in p) reads transfers
  handle_stream _ transfers = record { transfers = transfers; session = none; file = none }
