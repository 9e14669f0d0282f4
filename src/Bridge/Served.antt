-- ===== src/Bridge/Served.antt =====
-- go-daemon/pkg/wsbridge/bridge.go: what every frame of a client keeps of the clients.
use ripple.Prelude.{
  Option, ℕ, Text, bytes, ◌≡◌, none, some, List, [], ◌∷◌, false, All, text_eq, is_empty,
  Option-cases, inl, inr, Dict, if◌then◌else◌,
}
use ripple.Message.{Message, SosPayload}
use ripple.Sos.{Manager as SosManager}
use ripple.FileTransfer.{
  Transfer, Callback, on_started, on_progress, on_complete, on_failed, on_file_notification,
}
use ripple.Identity.{Identity, Result}
use ripple.Bridge.{Frame, Client, Bridge, WsIncoming, Outside, Problem}
use ripple.Bridge.Clients.{offer_listed, offer_one, send_to}
use ripple.Bridge.Calls.{after_call, send_mesh, hear_files}
use ripple.Bridge.Requests.{
  send_error, send_pong, send_or_complain, seal_chat, handle_incoming_chat,
  handle_incoming_key_exchange, after_alert, start_alert, handle_incoming_sos, start_file,
  handle_incoming_file, reply_seed, handle_seed_export, handle_request, handle_incoming,
}
use ripple.Prelude.{either}
use ripple.Bridge.Keeps.{is_seed, All-map, broadcast_file-keeps, call_back-keeps, hear-keeps}

module _ {F P Q : Type 0} (K : Client F → Type 0) (n : ℕ)
    (all : (f : Frame F) (c : Client F) → is_seed f ≡ false → K c → K (offer_listed f c))
    (one : (f : Frame F) (c : Client F) → K c → K (offer_one n f c)) where
  pub send_to-keeps :
      (f : Frame F) (b : Bridge F P Q) → All K b.clients → All K (send_to n f b).clients
  unfolding send_to
  send_to-keeps f b h = All-map K (offer_one n f) b.clients (one f) h

  module _ (o : Outside F P Q) where
    abbrev Served : Bridge F P Q → Type 0
    Served b = All K b.clients

    complain-keeps :
        (e : Problem) (b : Bridge F P Q) → All K b.clients → All K (send_error n e b).clients
    unfolding send_error
    complain-keeps e b h = send_to-keeps _ b h

    send_or_complain-keeps :
        (m : Message) (b : Bridge F P Q)
        → All K b.clients
        → All K (send_or_complain o n m b).clients
    unfolding send_or_complain send_mesh after_call
    send_or_complain-keeps m b h =
        let heard = hear-keeps K all o _ _ h in
        either Served (send_mesh o m b).1 heard (complain-keeps _ _ heard)

    seal_chat-keeps :
        (m : Message) (b : Bridge F P Q) → All K b.clients → All K (seal_chat o m b).1.clients
    unfolding seal_chat
    seal_chat-keeps m b h = elim (Option-cases (if is_empty m.recipient then none else b.e2e)) [
      | inl plain ↦ rw (plain, seal_chat) h
      | inr (x, sealed) ↦ rw (sealed, seal_chat) h
    ]

    handle_incoming_chat-keeps :
        (i : WsIncoming) (b : Bridge F P Q)
        → All K b.clients
        → All K (handle_incoming_chat o n i b).clients
    unfolding handle_incoming_chat
    handle_incoming_chat-keeps i b h = send_or_complain-keeps _ _ (seal_chat-keeps _ b h)

    handle_incoming_key_exchange-keeps :
        (i : WsIncoming) (b : Bridge F P Q)
        → All K b.clients
        → All K (handle_incoming_key_exchange o n i b).clients
    unfolding handle_incoming_key_exchange
    handle_incoming_key_exchange-keeps i b h = elim (Option-cases b.e2e) [
      | inl unset ↦ rw (unset, handle_incoming_key_exchange) (complain-keeps _ b h)
      | inr (m, set) ↦
          rw (set, handle_incoming_key_exchange)
            (either Served (is_empty i.recipient) (complain-keeps _ b h)
              (send_or_complain-keeps _ b h))
    ]

    after_alert-keeps :
        (r : Option Text) (b : Bridge F P Q) → All K b.clients → All K (after_alert n r b).clients
    unfolding after_alert
    after_alert-keeps none b h = complain-keeps _ b h
    after_alert-keeps (some id) b h = h

    start_alert-keeps :
        (p : SosPayload F) (m : SosManager F) (b : Bridge F P Q)
        → All K b.clients
        → All K (start_alert o n p m b).clients
    unfolding start_alert after_call
    start_alert-keeps p m b h =
        after_alert-keeps _ _ (call_back-keeps K all o _ _ (hear-keeps K all o _ _ h))

    handle_incoming_sos-keeps :
        (i : WsIncoming) (b : Bridge F P Q)
        → All K b.clients
        → All K (handle_incoming_sos o n i b).clients
    unfolding handle_incoming_sos
    handle_incoming_sos-keeps i b h = elim (Option-cases b.sos) [
      | inl unset ↦ rw (unset, handle_incoming_sos) (complain-keeps _ b h)
      | inr (m, set) ↦ elim (Option-cases (o.env.json.to_sos i.payload)) [
        | inl bad ↦
            rw (set, handle_incoming_sos) (rw (bad, handle_incoming_sos) (complain-keeps _ b h))
        | inr (p, read) ↦
            rw (set, handle_incoming_sos)
              (rw (read, handle_incoming_sos)
                (either Served (is_empty p.message) (complain-keeps _ b h)
                  (start_alert-keeps p m b h)))
      ]
    ]

    hear_files-keeps :
        (cs : List (Callback F)) (b : Bridge F P Q)
        → All K b.clients
        → All K (hear_files o cs b).clients
    unfolding hear_files
    hear_files-keeps [] b h = h
    hear_files-keeps (on_file_notification m ∷ cs) b h =
        broadcast_file-keeps K all o m _ (hear_files-keeps cs b h)
    hear_files-keeps (on_started id ∷ cs) b h = hear_files-keeps cs b h
    hear_files-keeps (on_progress id x ∷ cs) b h = hear_files-keeps cs b h
    hear_files-keeps (on_complete id ∷ cs) b h = hear_files-keeps cs b h
    hear_files-keeps (on_failed id why ∷ cs) b h = hear_files-keeps cs b h

    start_file-keeps :
        (i : WsIncoming) (path : Text) (ts : Dict (Transfer F)) (b : Bridge F P Q)
        → All K b.clients
        → All K (start_file o n i path ts b).clients
    unfolding start_file
    start_file-keeps i path ts b h = elim (Option-cases (o.file_at path)) [
      | inl missing ↦ rw (missing, start_file) (complain-keeps _ b h)
      | inr ((name, size, reads), found) ↦ rw (found, start_file) (hear_files-keeps _ _ h)
    ]

    handle_incoming_file-keeps :
        (i : WsIncoming) (b : Bridge F P Q)
        → All K b.clients
        → All K (handle_incoming_file o n i b).clients
    unfolding handle_incoming_file
    handle_incoming_file-keeps i b h = elim (Option-cases b.files) [
      | inl unset ↦ rw (unset, handle_incoming_file) (complain-keeps _ b h)
      | inr (ts, set) ↦
          rw (set, handle_incoming_file)
            (either Served (is_empty i.recipient) (complain-keeps _ b h)
              (elim (Option-cases (o.to_file_path i.payload)) [
                | inl bad ↦ rw (bad, handle_incoming_file) (complain-keeps _ b h)
                | inr (path, read) ↦
                    rw (read, handle_incoming_file)
                      (either Served (is_empty path) (complain-keeps _ b h) (
                        either Served (is_empty i.id) (complain-keeps _ b h)
                          (start_file-keeps i path ts b h)))
              ]))
    ]

    reply_seed-keeps :
        (r : Result Text) (b : Bridge F P Q) → All K b.clients → All K (reply_seed n r b).clients
    unfolding reply_seed
    reply_seed-keeps (ripple.Identity.failed e) b h = complain-keeps _ b h
    reply_seed-keeps (ripple.Identity.done phrase) b h = send_to-keeps _ b h

    handle_seed_export-keeps :
        (b : Bridge F P Q) → All K b.clients → All K (handle_seed_export o n b).clients
    unfolding handle_seed_export
    handle_seed_export-keeps b h = elim (Option-cases b.identity) [
      | inl unset ↦ rw (unset, handle_seed_export) (complain-keeps _ b h)
      | inr (id, set) ↦ rw (set, handle_seed_export) (reply_seed-keeps _ b h)
    ]

    handle_request-keeps :
        (i : WsIncoming) (b : Bridge F P Q)
        → All K b.clients
        → All K (handle_request o n i b).clients
    unfolding handle_request send_pong
    handle_request-keeps i b h =
        either Served (text_eq i.kind (bytes "chat")) (handle_incoming_chat-keeps i b h) (
          either Served (text_eq i.kind (bytes "key_exchange"))
            (handle_incoming_key_exchange-keeps i b h)
            (either Served (text_eq i.kind (bytes "sos")) (handle_incoming_sos-keeps i b h) (
              either Served (text_eq i.kind (bytes "file")) (handle_incoming_file-keeps i b h) (
                either Served (text_eq i.kind (bytes "seed_export")) (handle_seed_export-keeps b h)
                  (either Served (text_eq i.kind (bytes "ping")) (send_to-keeps _ b h)
                    (complain-keeps _ b h))))))

    pub handle_incoming-keeps :
        (text : Text) (b : Bridge F P Q)
        → All K b.clients
        → All K (handle_incoming o n text b).clients
    unfolding handle_incoming
    handle_incoming-keeps text b h = elim (Option-cases (o.to_incoming text)) [
      | inl bad ↦ rw (bad, handle_incoming) (complain-keeps _ b h)
      | inr (i, read) ↦ rw (read, handle_incoming) (handle_request-keeps i b h)
    ]
