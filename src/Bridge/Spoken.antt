-- ===== src/Bridge/Spoken.antt =====
-- go-daemon/pkg/wsbridge/bridge.go: a client speaks to the mesh only in the name of its own node.
use ripple.Prelude.{
  ℕ, Text, ◌≡◌, refl, ap, ◌∙◌, none, List, [], ◌∷◌, ◌++◌, All, is_empty, Option-cases, inl, inr,
  if◌then◌else◌,
}
use ripple.Message.{Message}
use ripple.Message.Make.{new_chat, new_key_exchange}
use ripple.Mesh.Node.{
  Effect, relay, publish, direct, on_message, on_peer_join, on_peer_leave, World,
}
use ripple.Mesh.Handle.{send_message}
use ripple.Crypto.{encrypt, Outcome, done, failed}
use ripple.Crypto.Manager.{Manager, encrypt_message, encrypt_with, seal_message}
use ripple.Sos.{Notice, on_sos_received, on_sos_expired, on_sos_ack, send_ack}
use ripple.FileTransfer.{
  Callback, on_started, on_progress, on_complete, on_failed, on_file_notification,
}
use ripple.Bridge.{Problem, Bridge, WsIncoming, Outside}
use ripple.Bridge.Clients.{broadcast, send_to}
use ripple.Bridge.Feed.{broadcast_relay, broadcast_sos, broadcast_file, call_back}
use ripple.Bridge.Calls.{at_rest, hear, after_call, send_mesh, hear_files}
use ripple.Bridge.Requests.{
  send_error, send_or_complain, chat_of, seal_chat, handle_incoming_chat, key_exchange_of,
  handle_incoming_key_exchange,
}
use ripple.Prelude.{either}
use ripple.Bridge.Author.{IsAuthored, send_message-IsAuthored}

module _ {F P Q : Type 0} (o : Outside F P Q) (n : ℕ) (who : Text) where
  -- What the node did since then, it did in this name.
  pub record Spoke (before : List Effect) (b : Bridge F P Q) : Type 0 where
    pub said : List Effect
    pub since : b.world.trace ≡ said ++ before
    pub authored : All (IsAuthored who) said

  pub nothing : (b : Bridge F P Q) → Spoke b.world.trace b
  nothing b = record { said = []; since = refl; authored = tt }

  hear-world :
      (es : List Effect) (b : Bridge F P Q)
      → All (IsAuthored who) es
      → (hear o es b).world ≡ b.world
  unfolding hear broadcast_relay broadcast
  hear-world [] b h = refl
  hear-world (relay e ∷ es) b h = hear-world es b h.1
  hear-world (publish m ∷ es) b h = hear-world es b h.1
  hear-world (direct p m ∷ es) b h = hear-world es b h.1
  hear-world (on_message m ∷ es) b h = absurd h.0
  hear-world (on_peer_join p ∷ es) b h = absurd h.0
  hear-world (on_peer_leave p ∷ es) b h = absurd h.0

  pub call_back-world :
      (ns : List (Notice F)) (b : Bridge F P Q) → (call_back o ns b).world ≡ b.world
  unfolding call_back broadcast_sos broadcast
  call_back-world [] b = refl
  call_back-world (on_sos_received a ∷ ns) b = call_back-world ns b
  call_back-world (on_sos_expired id ∷ ns) b = call_back-world ns b
  call_back-world (on_sos_ack id p ∷ ns) b = call_back-world ns b
  call_back-world (send_ack p m ∷ ns) b = call_back-world ns b

  pub hear_files-world :
      (cs : List (Callback F)) (b : Bridge F P Q) → (hear_files o cs b).world ≡ b.world
  unfolding hear_files
  hear_files-world [] b = refl
  hear_files-world (on_file_notification m ∷ cs) b =
      broadcast_file-world m (hear_files o cs b) ∙ hear_files-world cs b
    where
      broadcast_file-world :
          (m : Message) (b : Bridge F P Q) → (broadcast_file o m b).world ≡ b.world
      broadcast_file-world m b = elim (Option-cases (o.env.json.to_file m.payload)) [
        | inl bad ↦ unfold broadcast_file in rw (bad, broadcast_file) refl
        | inr (p, read) ↦ unfold broadcast_file broadcast in rw (read, broadcast_file) refl
      ]
  hear_files-world (on_started id ∷ cs) b = hear_files-world cs b
  hear_files-world (on_progress id x ∷ cs) b = hear_files-world cs b
  hear_files-world (on_complete id ∷ cs) b = hear_files-world cs b
  hear_files-world (on_failed id why ∷ cs) b = hear_files-world cs b

  pub after_call-Spoke :
      (w : World F) (b : Bridge F P Q)
      → All (IsAuthored who) w.trace
      → Spoke b.world.trace (after_call o w b)
  unfolding after_call
  after_call-Spoke w b h = record {
    said = w.trace;
    since = ap (λ (x : World F). x.trace) (hear-world w.trace _ h);
    authored = h;
  }

  pub complain-Spoke :
      (e : Problem) (before : List Effect) (b : Bridge F P Q)
      → Spoke before b
      → Spoke before (send_error n e b)
  unfolding send_error send_to
  complain-Spoke e before b h = record { said = h.said; since = h.since; authored = h.authored }

  send_or_complain-Spoke :
      (m : Message) (b : Bridge F P Q)
      → m.sender ≡ who
      → Spoke b.world.trace (send_or_complain o n m b)
  unfolding send_or_complain send_mesh
  send_or_complain-Spoke m b e =
      let sent = send_message o.env m (at_rest b.world) in
      let spoke =
        after_call-Spoke sent.0 b (send_message-IsAuthored who o.env m (at_rest b.world) e tt) in
      either (Spoke b.world.trace) sent.1 spoke (complain-Spoke _ _ _ spoke)

  -- A message that is sealed keeps its sender.
  abbrev Named : Outcome Message → Type 0
  Named (done x) = x.sender ≡ who
  Named (failed e) = Unit {0}

  encrypt_with-Named :
      (msg : Message) (p : Outcome Text × Manager)
      → msg.sender ≡ who
      → Named (encrypt_with o.nacl o.nonce msg p).0
  unfolding encrypt_with seal_message
  encrypt_with-Named msg (failed e, m) h = tt
  encrypt_with-Named msg (done key, m) h = sealed (encrypt o.nacl o.nonce msg.payload key)
    where
      sealed :
          (t : Outcome Text)
          → Named
              (elim t as (λ _. Outcome Message × Manager) [
                | failed e ↦ (failed e, m)
                | done text ↦ (done (seal_message m msg text), m)
              ]).0
      sealed (failed e) = tt
      sealed (done text) = h

  encrypt-Named :
      (msg : Message) (m : Manager)
      → msg.sender ≡ who
      → Named (encrypt_message o.nacl o.nonce msg m).0
  unfolding encrypt_message
  encrypt-Named msg m h =
      either (λ (p : Outcome Message × Manager). Named p.0) (is_empty msg.recipient) h
        (encrypt_with-Named msg _ h)

  seal_chat-sender :
      (msg : Message) (b : Bridge F P Q) → msg.sender ≡ who → (seal_chat o msg b).0.sender ≡ who
  unfolding seal_chat
  seal_chat-sender msg b h = elim (Option-cases (if is_empty msg.recipient then none else b.e2e)) [
    | inl plain ↦ rw (plain, seal_chat) h
    | inr (m, set) ↦
        rw (set, seal_chat)
          (chosen (encrypt_message o.nacl o.nonce msg m).0 (encrypt-Named msg m h))
  ]
    where
      chosen :
          (t : Outcome Message)
          → Named t
          → (elim t as (λ _. Message) [ failed e ↦ msg | done x ↦ x ]).sender ≡ who
      chosen (failed e) k = h
      chosen (done x) k = k

  seal_chat-world : (msg : Message) (b : Bridge F P Q) → (seal_chat o msg b).1.world ≡ b.world
  unfolding seal_chat
  seal_chat-world msg b = elim (Option-cases (if is_empty msg.recipient then none else b.e2e)) [
    | inl plain ↦ rw (plain, seal_chat) refl
    | inr (m, set) ↦ rw (set, seal_chat) refl
  ]

  -- From a bridge to the next, in the name of the first one's node.
  abbrev pub Speaks : Bridge F P Q → Bridge F P Q → Type 0
  Speaks b c = Spoke b.world.trace c

  pub chat-Spoke :
      (i : WsIncoming) (b : Bridge F P Q)
      → b.peer_id ≡ who
      → Speaks b (handle_incoming_chat o n i b)
  unfolding handle_incoming_chat
  chat-Spoke i b h =
      let msg = chat_of o i b in
      let sent =
        send_or_complain-Spoke (seal_chat o msg b).0 (seal_chat o msg b).1
          (seal_chat-sender msg b (chat_of-sender i b h)) in
      record {
        said = sent.said;
        since = sent.since ∙ ap (λ (w : World F). sent.said ++ w.trace) (seal_chat-world msg b);
        authored = sent.authored;
      }
    where
      chat_of-sender :
          (i : WsIncoming) (b : Bridge F P Q) → b.peer_id ≡ who → (chat_of o i b).sender ≡ who
      chat_of-sender i b h =
          unfold chat_of new_chat in either (λ (m : Message). m.sender ≡ who) (is_empty i.id) h h

  pub key_exchange-Spoke :
      (i : WsIncoming) (b : Bridge F P Q)
      → b.peer_id ≡ who
      → Speaks b (handle_incoming_key_exchange o n i b)
  unfolding handle_incoming_key_exchange
  key_exchange-Spoke i b h = elim (Option-cases b.e2e) [
    | inl unset ↦ rw (unset, handle_incoming_key_exchange) (complain-Spoke _ _ b (nothing b))
    | inr (m, set) ↦
        rw (set, handle_incoming_key_exchange)
          (either (Speaks b) (is_empty i.recipient) (complain-Spoke _ _ b (nothing b)) (
            send_or_complain-Spoke (key_exchange_of o i m b) b
              (unfold key_exchange_of new_key_exchange in h)))
  ]
