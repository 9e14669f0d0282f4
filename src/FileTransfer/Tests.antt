-- ===== src/FileTransfer/Tests.antt =====
-- The theorems of the file transfer at a file of two bytes.
use ripple.Prelude.{ℕ, Text, bytes, pos, ◌≡◌, refl, arith, Option, some, List, [], ◌∷◌, map, true}
use ripple.Prelude.{ltb, text_dec}
use native.Mathlib.Decide.{ℕ_discrete}
use ripple.FileTransfer.{FileMetadata, complete, Surroundings, Session}
use ripple.FileTransfer.Send.{metadata_of, start_sending, send_file_stream, send_file}
use ripple.FileTransfer.Receive.{accepts, is_safe_name, has_separator, handle_stream}
use ripple.FileTransfer.RoundTrip.{IsOpen, IsWritable, handle_stream-send_file_stream}
use ripple.FileTransfer.Pieces.{handle_stream-send_file, reads, sent_metadata}
use ripple.FileTransfer.{FileChunk, StreamPacket}
use ripple.FileTransfer.Send.{chunk_packet}
use ripple.FileTransfer.Receive.{
  chunk_at, check_packet, check_index, take_chunk, receive_chunks, start_receiving, reassemble_file,
  after_reassembly, after_receiving, finish_receiving, receive_file,
}
use ripple.FileTransfer.Whole.{receive_file-whole}
use ripple.Samples.{one_field}

-- At the peer of that ID.
abbrev pub calm_at : Text → Surroundings ℕ
calm_at peer = record {
  zero = 0;
  one = 100;
  fraction = λ a b. 50;
  above_one = λ p. ltb 100 p;
  json = one_field;
  local_peer = peer;
  is_peer_id = λ t. true;
  notification_id = λ n. bytes "id";
  now = pos 7;
  opens = true;
  writes_packet = λ n. true;
  creates = true;
  writes_chunk = λ n. true;
  incoming_path = λ t. t;
}

abbrev extension : Text → Text
extension name = bytes ".txt"

abbrev two_chunks : FileMetadata
two_chunks = record {
  file_id = bytes "f";
  name = bytes "a.txt";
  size = pos 2;
  mime_type = [];
  chunk_count = pos 2;
  sender = bytes "a";
  sender_nick = [];
  recipient = bytes "z";
  timestamp = pos 7;
}

abbrev a_session : Session ℕ
a_session =
    start_sending (calm_at (bytes "a")) extension (bytes "a.txt") 2 (bytes "z") [] (bytes "f")

calm-IsOpen : (meta : FileMetadata) → IsOpen (calm_at (bytes "a")) meta
calm-IsOpen meta = record { recipient_is_peer = refl; opened = refl; written = λ n. refl }

calm-IsWritable : (meta : FileMetadata) → IsWritable (calm_at (bytes "z")) meta
calm-IsWritable meta = record { created = refl; chunk_written = λ n. refl }

accepts-two_chunks : accepts (calm_at (bytes "z")) two_chunks ≡ true
unfolding accepts is_safe_name has_separator text_dec ℕ_discrete
accepts-two_chunks = refl

handle_stream-send_file_stream_example :
    ((send_file_stream
        (calm_at (bytes "a"))
        two_chunks
        2
        (some (bytes "h") ∷ some (bytes "i") ∷ [])
        a_session).transfer.status
      ≡ complete)
    × ((handle_stream
          (calm_at (bytes "z"))
          (map some
            (send_file_stream
              (calm_at (bytes "a"))
              two_chunks
              2
              (some (bytes "h") ∷ some (bytes "i") ∷ [])
              a_session).wire)
          []).file
        ≡ some (bytes "hi"))
unfolding ripple.FileTransfer.Chunks.join
handle_stream-send_file_stream_example =
    handle_stream-send_file_stream (calm_at (bytes "a")) (calm_at (bytes "z")) two_chunks
      (bytes "h" ∷ bytes "i" ∷ []) a_session [] refl (omega arith, (omega arith, tt))
      (calm-IsOpen two_chunks) (calm-IsWritable two_chunks) accepts-two_chunks

abbrev hi_metadata : FileMetadata
hi_metadata =
    sent_metadata (calm_at (bytes "a")) (calm_at (bytes "z")) extension (bytes "a.txt") (bytes "hi")
      (bytes "z") [] (bytes "f") []

accepts-hi : accepts (calm_at (bytes "z")) hi_metadata ≡ true
unfolding accepts metadata_of is_safe_name has_separator text_dec ℕ_discrete
accepts-hi = refl

handle_stream-send_file_example :
    ((send_file
        (calm_at (bytes "a"))
        extension
        (bytes "a.txt")
        2
        (map some (
          reads
            (calm_at (bytes "a"))
            (calm_at (bytes "z"))
            extension
            (bytes "a.txt")
            (bytes "hi")
            (bytes "z")
            []
            (bytes "f")
            []))
        (bytes "z")
        []
        (bytes "f")
        []
        []).1.transfer.status
      ≡ complete)
    × ((handle_stream
          (calm_at (bytes "z"))
          (map some
            (send_file
              (calm_at (bytes "a"))
              extension
              (bytes "a.txt")
              2
              (map some (
                reads
                  (calm_at (bytes "a"))
                  (calm_at (bytes "z"))
                  extension
                  (bytes "a.txt")
                  (bytes "hi")
                  (bytes "z")
                  []
                  (bytes "f")
                  []))
              (bytes "z")
              []
              (bytes "f")
              []
              []).1.wire)
          []).file
        ≡ some (bytes "hi"))
handle_stream-send_file_example =
    handle_stream-send_file (calm_at (bytes "a")) (calm_at (bytes "z")) extension (bytes "a.txt")
      (bytes "hi") (bytes "z") [] (bytes "f") [] [] [] (calm-IsOpen hi_metadata)
      (calm-IsWritable hi_metadata) accepts-hi

-- What z keeps of the stream of the two chunks.
abbrev wire_of_two : List (Option StreamPacket)
wire_of_two =
    some (chunk_packet two_chunks 1 (bytes "i")) ∷ some (chunk_packet two_chunks 0 (bytes "h")) ∷ []

abbrev session_of_two : Session ℕ
session_of_two =
    (after_receiving (calm_at (bytes "z")) two_chunks (
      receive_chunks (calm_at (bytes "z")) two_chunks 2 0 wire_of_two
        (start_receiving (calm_at (bytes "z")) two_chunks))).0

received_two :
    (receive_file (calm_at (bytes "z")) two_chunks wire_of_two []).session ≡ some session_of_two
unfolding receive_file
received_two = refl

complete_two : session_of_two.transfer.status ≡ complete
unfolding after_receiving receive_chunks start_receiving check_packet check_index chunk_packet
    take_chunk reassemble_file chunk_at after_reassembly finish_receiving text_dec ℕ_discrete
complete_two = refl

receive_file-whole_example : (c : FileChunk) × (chunk_at 0 session_of_two.transfer.chunks ≡ some c)
receive_file-whole_example =
    receive_file-whole (calm_at (bytes "z")) two_chunks wire_of_two [] session_of_two 0 received_two
      complete_two (omega arith)
