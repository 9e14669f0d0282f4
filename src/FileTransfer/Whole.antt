-- ===== src/FileTransfer/Whole.antt =====
-- go-daemon/pkg/filetransfer/transfer.go: whatever comes over the stream, a transfer is complete only with
-- all of its chunks.
use ripple.Prelude.{
  if_true, if_false, ℕ, zero, suc, ◌+◌, ◌≤◌, ◌<◌, Text, pos_part, ◌≡◌, ◌≢◌, refl, sym, ◌∙◌, Option,
  none, some, List, [],
}
use ripple.Prelude.{arith, Bool-cases, Option-cases, ◌⊎◌, inl, inr, Dict, ◌++◌, ap}
use ripple.FileTransfer.{
  FileMetadata, FileChunk, TransferStatus, complete, failed, Transfer, StreamPacket, Failure,
  create_output, Session, Surroundings, fail_transfer,
}
use ripple.FileTransfer.Receive.{
  chunk_at, reassemble_file, receive_chunks, start_receiving, finish_receiving, after_reassembly,
  after_receiving, receive_file,
}

failed-not_complete : failed ≢ complete
failed-not_complete e = cc

module _ {F : Type 0} (env : Surroundings F) where
  -- One round of `reassembleFile` that does not fail.
  reassemble_round :
      (rounds i : ℕ) (chunks : List (ℕ × FileChunk)) (out : Text)
      → (reassemble_file env (suc rounds) i chunks out).1 ≡ none
      → (c : FileChunk) × (chunk_at i chunks ≡ some c)
        × ((reassemble_file env rounds (suc i) chunks (out ++ c.body)).1 ≡ none)
  unfolding reassemble_file
  reassemble_round rounds i chunks out e = elim (Option-cases (chunk_at i chunks)) [
    | inl missing ↦ absurd (ground arith)
    | inr (c, held) ↦ (c, held, ground arith)
  ]

  reassemble_file-present :
      (rounds i : ℕ) (chunks : List (ℕ × FileChunk)) (out : Text) (k : ℕ)
      → (reassemble_file env rounds i chunks out).1 ≡ none
      → i ≤ k
      → k < i + rounds
      → (c : FileChunk) × (chunk_at k chunks ≡ some c)
  reassemble_file-present zero i chunks out k e low high = absurd (omega arith)
  reassemble_file-present (suc rounds) i chunks out k e low high =
      let (c, held, rest) = reassemble_round rounds i chunks out e in
      elim (at_or_behind i k low) [
        | inl here ↦ (c, rw here held)
        | inr behind ↦
            reassemble_file-present rounds (suc i) chunks (out ++ c.body) k rest behind
              (omega arith)
      ]
    where
      at_or_behind : (i k : ℕ) → i ≤ k → (k ≡ i) ⊎ (suc i ≤ k)
      at_or_behind i k h = ground arith

module _ {F : Type 0} (env : Surroundings F) (meta : FileMetadata) where
  after_reassembly_lem :
      (s : Session F) (r : Text × Option Failure)
      → (after_reassembly env meta s r).0.transfer.status ≡ complete
      → (r.1 ≡ none)
        × ((after_reassembly env meta s r).0.transfer.chunks ≡ s.transfer.chunks)
        × ((after_reassembly env meta s r).1 ≡ some r.0)
  unfolding after_reassembly finish_receiving fail_transfer
  after_reassembly_lem s (out, none) e = (refl, refl, refl)
  after_reassembly_lem s (out, some reason) e = cc

  after_receiving_whole :
      (r : Session F × Option Failure) (k : ℕ)
      → (after_receiving env meta r).0.transfer.status ≡ complete
      → k < pos_part meta.chunk_count
      → (c : FileChunk) × (chunk_at k (after_receiving env meta r).0.transfer.chunks ≡ some c)
  unfolding after_receiving fail_transfer
  after_receiving_whole (s, some reason) k e h = cc
  after_receiving_whole (s, none) k e h =
      let r = reassemble_file env (pos_part meta.chunk_count) 0 s.transfer.chunks [] in
      let status : Session F × Option Text → TransferStatus = λ x. x.0.transfer.status in
      elim (Bool-cases env.creates) [
        | inl created ↦
            let ended = if_true {x = after_reassembly env meta s r} _ created in
            let (fine, same, _) = after_reassembly_lem s r (sym (ap status ended) ∙ e) in
            let (c, held) =
              reassemble_file-present env (pos_part meta.chunk_count) 0 s.transfer.chunks [] k fine
                (omega arith) (omega arith) in
            (
              c,
              ap (λ (x : Session F × Option Text). chunk_at k x.0.transfer.chunks) ended
                  ∙ (ap (chunk_at k) same ∙ held),
            )
        | inr refused ↦
            let ended = if_false {y = (fail_transfer create_output s, none)} _ refused in
            absurd (failed-not_complete (sym (ap status ended) ∙ e))
      ]

  -- Whatever packets come over the stream, if the transfer ends complete, then the chunk of every index below
  -- the chunk count of its metadata came in.
  pub receive_file-whole :
      (reads : List (Option StreamPacket)) (transfers : Dict (Transfer F)) (s : Session F) (k : ℕ)
      → (receive_file env meta reads transfers).session ≡ some s
      → s.transfer.status ≡ complete
      → k < pos_part meta.chunk_count
      → (c : FileChunk) × (chunk_at k s.transfer.chunks ≡ some c)
  unfolding receive_file
  receive_file-whole reads transfers s k e done h =
      let r =
        receive_chunks env meta (pos_part meta.chunk_count) 0 reads (start_receiving env meta) in
      let same : (after_receiving env meta r).0 ≡ s = cc in
      rw⁻¹ same
        (after_receiving_whole r k (ap (λ (x : Session F). x.transfer.status) same ∙ done) h)
