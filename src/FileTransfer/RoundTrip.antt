-- ===== src/FileTransfer/RoundTrip.antt =====
-- go-daemon/pkg/filetransfer/transfer.go: the file that was sent is the file that is written.
use ripple.Prelude.{
  if_true, ℕ, ◌<◌, Text, ℤ, pos, ◌≡◌, refl, ◌∙◌, Option, none, some, List, [], ◌∷◌,
}
use ripple.Prelude.{Bool, true, arith, All, map, length, Dict, pos_part, ap}
use ripple.Prelude.{text_dec, if◌then◌else◌}
use ripple.FileTransfer.{
  FileMetadata, complete, sending, on_started, Transfer, Failure, Session, Surroundings,
}
use ripple.FileTransfer.Send.{
  meta_packet, send_chunks, after_chunks, finish_sending, send_file_stream,
}
use ripple.FileTransfer.Receive.{
  receive_chunks, reassemble_file, start_receiving, after_reassembly, after_receiving,
  finish_receiving, receive_file, accepts, metadata_in, handle_metadata, handle_stream,
}
use ripple.FileTransfer.Chunks.{
  join, chunk_packets, filled, send_chunks_lem, receive_chunks_lem, reassemble_file-filled,
}

all_true :
    {A : Type 0} {a b c : Bool} {x : A} (y z w : A)
    → a ≡ true
    → b ≡ true
    → c ≡ true
    → (if a then (if b then (if c then x else y) else z) else w) ≡ x
all_true y z w p q r = rw (p, q, r)

module _ {F : Type 0} (env : Surroundings F) (meta : FileMetadata) where
  -- The stream opens and takes every packet.
  pub record IsOpen : Type 0 where
    pub recipient_is_peer : env.is_peer_id meta.recipient ≡ true
    pub opened : env.opens ≡ true
    pub written : (n : ℕ) → env.writes_packet n ≡ true

  -- The disk takes the file.
  pub record IsWritable : Type 0 where
    pub created : env.creates ≡ true
    pub chunk_written : (n : ℕ) → env.writes_chunk n ≡ true

  finish_sending_lem :
      (last : ℕ) (r : Session F × Option Failure)
      → r.1 ≡ none
      → ((after_chunks env meta last r).wire ≡ r.0.wire)
        × ((after_chunks env meta last r).transfer.status ≡ complete)
  unfolding after_chunks finish_sending
  finish_sending_lem last (s, none) e = (refl, refl)
  finish_sending_lem last (s, some reason) e = cc

  send_file_stream_lem :
      (ps : List Text) (s : Session F)
      → IsOpen
      → All (λ p. 0 < length p) ps
      → ((send_file_stream env meta (length ps) (map some ps) s).wire
          ≡ meta_packet meta ∷ chunk_packets meta 0 ps)
        × ((send_file_stream env meta (length ps) (map some ps) s).transfer.status ≡ complete)
  unfolding send_file_stream
  send_file_stream_lem ps s h full =
      let start : Session F = record {
        transfer = record s.transfer { status = sending };
        wire = meta_packet meta ∷ [];
        callbacks = on_started meta.file_id ∷ s.callbacks;
      } in
      let (fine, wire) = send_chunks_lem env meta ps 0 start h.written full in
      let (kept, done) =
        finish_sending_lem (length ps) (send_chunks env meta (length ps) 0 (map some ps) start)
          fine in
      let opened = all_true _ _ _ h.recipient_is_peer h.opened (h.written 0) in
      (
        ap (λ (x : Session F). x.wire) opened ∙ (kept ∙ wire),
        ap (λ (x : Session F). x.transfer.status) opened ∙ done,
      )

  after_receiving_lem :
      (ps : List Text) (r : Session F × Option Failure)
      → meta.chunk_count ≡ pos (length ps)
      → IsWritable
      → r.1 ≡ none
      → r.0.transfer.chunks ≡ filled meta 0 ps []
      → ((after_receiving env meta r).1 ≡ some (join ps))
        × ((after_receiving env meta r).0.transfer.status ≡ complete)
  unfolding after_receiving after_reassembly finish_receiving
  after_receiving_lem ps (s, some reason) e h none_failed chunks = cc
  after_receiving_lem ps (s, none) e h none_failed chunks =
      let whole : reassemble_file env (pos_part meta.chunk_count) 0 s.transfer.chunks []
          ≡ (join ps, none) =
        rw (e, chunks) (reassemble_file-filled env meta ps 0 [] [] h.chunk_written) in
      let ended = if_true _ h.created ∙ ap (after_reassembly env meta s) whole in
      (
        ap (λ (x : Session F × Option Text). x.1) ended,
        ap (λ (x : Session F × Option Text). x.0.transfer.status) ended,
      )

  receive_file_lem :
      (ps : List Text) (transfers : Dict (Transfer F))
      → meta.chunk_count ≡ pos (length ps)
      → IsWritable
      → (receive_file env meta (map some (chunk_packets meta 0 ps)) transfers).file ≡ some (join ps)
  unfolding receive_file start_receiving
  receive_file_lem ps transfers e h =
      let (fine, chunks) =
        receive_chunks_lem env meta (length ps) ps 0 (start_receiving env meta) e (omega arith) in
      let rounds =
        ap
          (λ (n : ℤ).
            (after_receiving env meta (
              receive_chunks env meta (pos_part n) 0 (map some (chunk_packets meta 0 ps))
                (start_receiving env meta))).1)
          e in
      rounds
      ∙ (after_receiving_lem ps
          (receive_chunks env meta (length ps) 0 (map some (chunk_packets meta 0 ps))
            (start_receiving env meta))
          e h fine chunks).0

-- A file that is read in as many pieces as its metadata counts, none of them empty, and sent over a stream
-- that opens and takes every packet, ends complete at the sender; and a receiver that accepts the
-- metadata and whose disk takes the file writes exactly the pieces, joined in order.
pub handle_stream-send_file_stream :
    {F : Type 0} (env env' : Surroundings F) (meta : FileMetadata) (ps : List Text) (s : Session F)
    (transfers : Dict (Transfer F))
    → meta.chunk_count ≡ pos (length ps)
    → All (λ p. 0 < length p) ps
    → IsOpen env meta
    → IsWritable env' meta
    → accepts env' meta ≡ true
    → ((send_file_stream env meta (length ps) (map some ps) s).transfer.status ≡ complete)
      × ((handle_stream env'
            (map some (send_file_stream env meta (length ps) (map some ps) s).wire)
            transfers).file
          ≡ some (join ps))
unfolding handle_stream handle_metadata metadata_in text_dec join
handle_stream-send_file_stream env env' meta ps s transfers e full h h' ok =
    let (wire, done) = send_file_stream_lem env meta ps s h full in
    (done, rw (wire, ok) (receive_file_lem env' meta ps transfers e h'))
