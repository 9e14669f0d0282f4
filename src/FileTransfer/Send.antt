-- ===== src/FileTransfer/Send.antt =====
-- go-daemon/pkg/filetransfer/transfer.go: `SendFile` and `sendFileStream`.
use ripple.Prelude.{
  ℕ, zero, suc, ◌+◌, ◌-◌, ◌/◌, Text, bytes, pos, ◌+ℤ◌, Option, none, some, List, [], ◌∷◌, ◌++◌,
}
use ripple.Prelude.{length, is_empty, Dict, insert, lookup, if◌then◌else◌}
use ripple.Message.Make.{new_file_metadata, new_file_progress, new_file_complete}
use ripple.FileTransfer.{
  FileMetadata, FileChunk, pending, sending, complete, Transfer, StreamPacket, Failure,
  decode_recipient, open_stream, send_metadata, read_chunk, send_chunk, on_started, on_progress,
  on_complete, on_file_notification, Session, Surroundings, call, with_transfer, fail_transfer,
  capped,
}

abbrev pub default_chunk_size : ℕ
default_chunk_size = 65536

-- The chunk count of a file of that size.
unfoldable pub chunk_count_of : ℕ → ℕ
chunk_count_of size = (size + default_chunk_size - 1) / default_chunk_size

-- The cases of `detectMimeType`.
unfoldable pub mime_types : Dict Text
mime_types =
    (bytes ".jpg", bytes "image/jpeg")
    ∷ (bytes ".jpeg", bytes "image/jpeg")
    ∷ (bytes ".png", bytes "image/png")
    ∷ (bytes ".gif", bytes "image/gif")
    ∷ (bytes ".webp", bytes "image/webp")
    ∷ (bytes ".mp4", bytes "video/mp4")
    ∷ (bytes ".mov", bytes "video/quicktime")
    ∷ (bytes ".avi", bytes "video/x-msvideo")
    ∷ (bytes ".mkv", bytes "video/x-matroska")
    ∷ (bytes ".pdf", bytes "application/pdf")
    ∷ (bytes ".zip", bytes "application/zip")
    ∷ (bytes ".tar", bytes "application/x-tar")
    ∷ (bytes ".gz", bytes "application/gzip")
    ∷ (bytes ".txt", bytes "text/plain")
    ∷ (bytes ".json", bytes "application/json")
    ∷ (bytes ".xml", bytes "application/xml")
    ∷ (bytes ".html", bytes "text/html")
    ∷ (bytes ".htm", bytes "text/html")
    ∷ (bytes ".mp3", bytes "audio/mpeg")
    ∷ (bytes ".wav", bytes "audio/wav")
    ∷ (bytes ".ogg", bytes "audio/ogg")
    ∷ (bytes ".doc", bytes "application/msword")
    ∷ (bytes ".docx", bytes "application/msword")
    ∷ (bytes ".xls", bytes "application/vnd.ms-excel")
    ∷ (bytes ".xlsx", bytes "application/vnd.ms-excel")
    ∷ (bytes ".csv", bytes "text/csv")
    ∷ []

-- `detectMimeType`, from the extension that `filepath.Ext` returned.
unfoldable pub detect_mime_type : Text → Text
detect_mime_type ext = elim (lookup ext mime_types) [
  | none ↦ bytes "application/octet-stream"
  | some t ↦ t
]

abbrev pub meta_packet : FileMetadata → StreamPacket
meta_packet meta = record { kind = bytes "meta"; metadata = some meta; chunk = none }

-- The packet of chunk `i`.
unfoldable pub chunk_packet : FileMetadata → ℕ → Text → StreamPacket
chunk_packet meta i body =
    let c : FileChunk = record {
      file_id = meta.file_id;
      chunk_idx = pos i;
      chunk_count = meta.chunk_count;
      body = body;
      size = pos (length body);
    } in
    record { kind = bytes "chunk"; metadata = none; chunk = some c }

module _ {F : Type 0} (env : Surroundings F) (meta : FileMetadata) where
  -- A chunk is on the wire: the progress, and who is told of it.
  unfoldable pub sent_chunk : ℕ → Text → Session F → Session F
  sent_chunk i body s =
      let t = s.transfer in
      let total = t.received +ℤ pos (length body) in
      let p = capped env total meta.size in
      let told =
        new_file_progress env.json (env.notification_id i) env.now meta.sender meta.recipient
          meta.file_id (pos i) meta.chunk_count p in
      record {
        transfer = record t { progress = p; received = total };
        wire = s.wire ++ (chunk_packet meta i body ∷ []);
        callbacks = on_file_notification told ∷ on_progress meta.file_id p ∷ s.callbacks;
      }

  -- The loop, with the rounds to go, the chunk's index and what the reads of the file give.
  unfoldable pub send_chunks : ℕ → ℕ → List (Option Text) → Session F → Session F × Option Failure
  send_chunks zero i reads s = (s, none)
  send_chunks (suc rounds) i [] s = (s, none)
  send_chunks (suc rounds) i (none ∷ reads) s = (s, some (read_chunk i))
  send_chunks (suc rounds) i (some [] ∷ reads) s = (s, none)
  send_chunks (suc rounds) i (some (b ∷ bs) ∷ reads) s =
      let rest = send_chunks rounds (suc i) reads (sent_chunk i (b ∷ bs) s) in
      if env.writes_packet (suc i) then rest else (s, some (send_chunk i))

  unfoldable pub finish_sending : ℕ → Session F → Session F
  finish_sending last s =
      let done : Transfer F = record s.transfer { status = complete; progress = env.one } in
      let told =
        new_file_complete env.json env.zero (env.notification_id last) env.now meta.sender
          meta.recipient meta.file_id meta.name [] in
      call (on_file_notification told) (call (on_complete meta.file_id) (with_transfer done s))

  unfoldable pub after_chunks : ℕ → Session F × Option Failure → Session F
  after_chunks last (s, none) = finish_sending last s
  after_chunks last (s, some reason) = fail_transfer reason s

  -- `sendFileStream`, with the chunk count as the number of rounds.
  unfoldable pub send_file_stream : ℕ → List (Option Text) → Session F → Session F
  send_file_stream rounds reads s₀ =
      let s =
        call (on_started meta.file_id)
          (with_transfer (record s₀.transfer { status = sending }) s₀) in
      if env.is_peer_id meta.recipient
      then (if env.opens
          then (if env.writes_packet 0
              then after_chunks rounds
                  (send_chunks rounds 0 reads (record s { wire = meta_packet meta ∷ [] }))
              else fail_transfer send_metadata s)
          else fail_transfer open_stream s)
      else fail_transfer decode_recipient s

-- `SendFile` of a file that opens: the metadata, the new transfer and its notification, and the goroutine.
-- `extension` is `filepath.Ext`.
module _ {F : Type 0} (env : Surroundings F) (extension : Text → Text) where
  unfoldable pub metadata_of : Text → ℕ → Text → Text → Text → FileMetadata
  metadata_of name size recipient nick file_id = record {
    file_id = file_id;
    name = name;
    size = pos size;
    mime_type = detect_mime_type (extension name);
    chunk_count = pos (chunk_count_of size);
    sender = env.local_peer;
    sender_nick = nick;
    recipient = recipient;
    timestamp = env.now;
  }

  unfoldable pub start_sending : Text → ℕ → Text → Text → Text → Session F
  start_sending name size recipient nick file_id =
      let meta = metadata_of name size recipient nick file_id in
      record {
        transfer = record {
          metadata = meta;
          status = pending;
          progress = env.zero;
          received = pos 0;
          chunks = [];
          output_path = [];
        };
        wire = [];
        callbacks =
            on_file_notification (
              new_file_metadata env.json env.zero env.now meta.sender nick recipient file_id name
                meta.mime_type meta.size meta.chunk_count)
            ∷ [];
      }

  -- `SendFile`: `generated` is what `newFileID` returned.
  unfoldable pub send_file :
      Text
      → ℕ
      → List (Option Text)
      → Text
      → Text
      → Text
      → Text
      → Dict (Transfer F)
      → Dict (Transfer F) × Session F
  send_file name size reads recipient nick file_id generated transfers =
      let id = if is_empty file_id then generated else file_id in
      let s =
        send_file_stream env (metadata_of name size recipient nick id) (chunk_count_of size) reads
          (start_sending name size recipient nick id) in
      (insert id s.transfer transfers, s)
