-- ===== src/FileTransfer/Chunks.antt =====
-- go-daemon/pkg/filetransfer/transfer.go: the loops of the two sides, when nothing fails.
use ripple.Prelude.{
  ℕ, suc, ◌+◌, ◌≤◌, ◌<◌, Text, pos, ◌≡◌, refl, ap, sym, ◌∙◌, none, some, List, [], ◌∷◌,
}
use ripple.Prelude.{◌++◌, true, arith, All, map, length, append_assoc, append-nil}
use ripple.Prelude.{text_dec}
use native.Mathlib.Decide.{ℕ_discrete}
use ripple.FileTransfer.{FileMetadata, FileChunk, StreamPacket, Session, Surroundings}
use ripple.FileTransfer.Send.{chunk_packet, sent_chunk, send_chunks}
use ripple.FileTransfer.Receive.{
  chunk_at, accepted, check_index, check_packet, reassemble_file, take_chunk, receive_chunks,
}

unfoldable pub join : List Text → Text
join [] = []
join (p ∷ ps) = p ++ join ps

-- The chunk of a packet.
abbrev chunk_of : FileMetadata → ℕ → Text → FileChunk
chunk_of meta i body = record {
  file_id = meta.file_id;
  chunk_idx = pos i;
  chunk_count = meta.chunk_count;
  body = body;
  size = pos (length body);
}

-- The packets of the pieces of a file, from index `i` on.
unfoldable pub chunk_packets : FileMetadata → ℕ → List Text → List StreamPacket
chunk_packets meta i [] = []
chunk_packets meta i (p ∷ ps) = chunk_packet meta i p ∷ chunk_packets meta (suc i) ps

-- The map of the chunks, after the pieces came in.
unfoldable pub filled : FileMetadata → ℕ → List Text → List (ℕ × FileChunk) → List (ℕ × FileChunk)
filled meta i [] chunks = chunks
filled meta i (p ∷ ps) chunks = filled meta (suc i) ps ((i, chunk_of meta i p) ∷ chunks)

chunk_at_head :
    (i : ℕ) (c : FileChunk) (chunks : List (ℕ × FileChunk)) → chunk_at i ((i, c) ∷ chunks) ≡ some c
unfolding chunk_at
chunk_at_head i c chunks = ground arith

module _ {F : Type 0} (env : Surroundings F) (meta : FileMetadata) where
  pub send_chunks_lem :
      (ps : List Text) (i : ℕ) (s : Session F)
      → ((n : ℕ) → env.writes_packet n ≡ true)
      → All (λ p. 0 < length p) ps
      → ((send_chunks env meta (length ps) i (map some ps) s).1 ≡ none)
        × ((send_chunks env meta (length ps) i (map some ps) s).0.wire
            ≡ s.wire ++ chunk_packets meta i ps)
  unfolding send_chunks chunk_packets sent_chunk
  send_chunks_lem [] i s ok h = (refl, sym (append-nil s.wire))
  send_chunks_lem ([] ∷ ps) i s ok h = absurd (omega (arith, h.0))
  send_chunks_lem ((b ∷ bs) ∷ ps) i s ok h =
      let (fine, wire) = send_chunks_lem ps (suc i) (sent_chunk env meta i (b ∷ bs) s) ok h.1 in
      (
        rw (ok (suc i), send_chunks) fine,
        rw (ok (suc i), send_chunks)
            (wire
              ∙ append_assoc s.wire (chunk_packet meta i (b ∷ bs) ∷ [])
                  (chunk_packets meta (suc i) ps)),
      )

  check_packet_lem :
      (i n : ℕ) (p : Text)
      → meta.chunk_count ≡ pos n
      → i < n
      → check_packet meta i (some (chunk_packet meta i p)) ≡ accepted i (chunk_of meta i p)
  unfolding check_packet check_index chunk_packet text_dec ℕ_discrete
  check_packet_lem i n p e h = ground arith

  pub receive_chunks_lem :
      (n : ℕ) (ps : List Text) (i : ℕ) (s : Session F)
      → meta.chunk_count ≡ pos n
      → i + length ps ≤ n
      → ((receive_chunks env meta (length ps) i (map some (chunk_packets meta i ps)) s).1 ≡ none)
        × ((receive_chunks env meta
              (length ps)
              i
              (map some (chunk_packets meta i ps))
              s).0.transfer.chunks
            ≡ filled meta i ps s.transfer.chunks)
  unfolding receive_chunks chunk_packets filled take_chunk
  receive_chunks_lem n [] i s e h = (refl, refl)
  receive_chunks_lem n (p ∷ ps) i s e h =
      rw (check_packet_lem i n p e (omega arith), receive_chunks)
        (receive_chunks_lem n ps (suc i) (take_chunk env meta i (chunk_of meta i p) s) e
          (omega arith))

  chunk_at-filled :
      (ps : List Text) (k i : ℕ) (chunks : List (ℕ × FileChunk))
      → k < i
      → chunk_at k (filled meta i ps chunks) ≡ chunk_at k chunks
  unfolding filled chunk_at
  chunk_at-filled [] k i chunks h = refl
  chunk_at-filled (p ∷ ps) k i chunks h =
      ground (arith, chunk_at-filled ps k (suc i) ((i, chunk_of meta i p) ∷ chunks))

  pub reassemble_file-filled :
      (ps : List Text) (i : ℕ) (chunks : List (ℕ × FileChunk)) (out : Text)
      → ((n : ℕ) → env.writes_chunk n ≡ true)
      → reassemble_file env (length ps) i (filled meta i ps chunks) out ≡ (out ++ join ps, none)
  unfolding reassemble_file filled join
  reassemble_file-filled [] i chunks out ok = ap (λ (o : Text). (o, none)) (sym (append-nil out))
  reassemble_file-filled (p ∷ ps) i chunks out ok =
      let next = (i, chunk_of meta i p) ∷ chunks in
      let here : chunk_at i (filled meta (suc i) ps next) ≡ some (chunk_of meta i p) =
        chunk_at-filled ps i (suc i) next (omega arith)
        ∙ chunk_at_head i (chunk_of meta i p) chunks in
      rw (here, reassemble_file, filled)
        (rw (ok i) (
          reassemble_file-filled ps (suc i) next (out ++ p) ok
          ∙ ap (λ (o : Text). (o, none)) (append_assoc out p (join ps))))
