-- ===== src/FileTransfer/Pieces.antt =====
-- go-daemon/pkg/filetransfer/transfer.go: the chunk count of `SendFile` is the number of full reads, and a
-- file that is sent arrives whole.
use ripple.Prelude.{ℕ, zero, suc, ◌+◌, ◌*◌, ◌≤◌, ◌<◌, Text, pos, ◌≡◌, refl, ap, sym, ◌∙◌, some}
use ripple.Prelude.{
  List, [], ◌∷◌, ◌++◌, true, arith, All, map, length, take, drop, length-drop, length-take,
}
use ripple.Prelude.{take-append-drop, Dict, if◌then◌else◌, is_empty}
use ripple.FileTransfer.{FileMetadata, complete, Transfer, Session, Surroundings}
use ripple.FileTransfer.Send.{
  default_chunk_size, chunk_count_of, metadata_of, start_sending, send_file_stream, send_file,
}
use ripple.FileTransfer.Receive.{accepts, handle_stream}
use ripple.FileTransfer.Chunks.{join}
use ripple.FileTransfer.RoundTrip.{IsOpen, IsWritable, handle_stream-send_file_stream}

-- What `n` reads of `c` bytes give, each filling the buffer while it can.
unfoldable pub full_reads : ℕ → ℕ → Text → List Text
full_reads c zero xs = []
full_reads c (suc n) xs = take c xs ∷ full_reads c n (drop c xs)

length-full_reads : (c n : ℕ) (xs : Text) → length (full_reads c n xs) ≡ n
unfolding full_reads
length-full_reads c zero xs = refl
length-full_reads c (suc n) xs = ap suc (length-full_reads c n (drop c xs))

join-full_reads : (c n : ℕ) (xs : Text) → length xs ≤ n * c → join (full_reads c n xs) ≡ xs
unfolding full_reads join
join-full_reads c zero [] h = refl
join-full_reads c zero (x ∷ xs) h = absurd (omega arith)
join-full_reads c (suc n) xs h =
    ap (λ (ys : Text). take c xs ++ ys)
      (join-full_reads c n (drop c xs) (omega (arith, length-drop c xs)))
    ∙ take-append-drop c xs

full_reads-filled :
    (c n : ℕ) (xs : Text)
    → 0 < c
    → n * c < length xs + c
    → All (λ p. 0 < length p) (full_reads c n xs)
unfolding full_reads
full_reads-filled c zero xs hc h = tt
full_reads-filled c (suc zero) xs hc h = (omega (arith, length-take c xs), tt)
full_reads-filled c (suc (suc n)) xs hc h = (
  omega (arith, length-take c xs),
  full_reads-filled c (suc n) (drop c xs) hc (omega (arith, length-drop c xs)),
)

chunk_count_of_lem :
    (size : ℕ)
    → (size ≤ chunk_count_of size * default_chunk_size)
      × (chunk_count_of size * default_chunk_size < size + default_chunk_size)
unfolding chunk_count_of
chunk_count_of_lem size = (omega arith, omega arith)

module _ {F : Type 0} (env env' : Surroundings F) (extension : Text → Text)
    (name content recipient nick file_id generated : Text) where
  -- The reads of the whole file.
  abbrev pub reads : List Text
  reads = full_reads default_chunk_size (chunk_count_of (length content)) content

  abbrev pub sent_metadata : FileMetadata
  sent_metadata =
      metadata_of env extension name (length content) recipient nick
        (if is_empty file_id then generated else file_id)

  -- A file whose reads fill the buffer while they can, sent by `SendFile` over a stream that opens and takes
  -- every packet, ends complete at the sender; and a receiver that accepts the metadata and whose disk
  -- takes the file writes exactly the contents of the file.
  pub handle_stream-send_file :
      (transfers transfers' : Dict (Transfer F))
      → IsOpen env sent_metadata
      → IsWritable env' sent_metadata
      → accepts env' sent_metadata ≡ true
      → ((send_file env extension name
            (length content)
            (map some reads)
            recipient
            nick
            file_id
            generated
            transfers).1.transfer.status
          ≡ complete)
        × ((handle_stream env'
              (map some
                (send_file env extension name
                  (length content)
                  (map some reads)
                  recipient
                  nick
                  file_id
                  generated
                  transfers).1.wire)
              transfers').file
            ≡ some content)
  unfolding send_file metadata_of
  handle_stream-send_file transfers transfers' h h' ok =
      let count = chunk_count_of (length content) in
      let bound = chunk_count_of_lem (length content) in
      let id = if is_empty file_id then generated else file_id in
      let whole = join-full_reads default_chunk_size count content bound.0 in
      let filled = full_reads-filled default_chunk_size count content (omega arith) bound.1 in
      let size = length-full_reads default_chunk_size count content in
      let (done, file) =
        handle_stream-send_file_stream env env' sent_metadata reads
          (start_sending env extension name (length content) recipient nick id) transfers'
          (ap pos (sym size)) filled h h' ok in
      let sent : ℕ → Session F = λ n.
        send_file_stream env sent_metadata n (map some reads)
          (start_sending env extension name (length content) recipient nick id) in
      (
        ap (λ (n : ℕ). (sent n).transfer.status) (sym size) ∙ done,
        ap (λ (n : ℕ). (handle_stream env' (map some (sent n).wire) transfers').file) (sym size)
            ∙ (file ∙ ap some whole),
      )
