-- ===== src/Bridge/NoSpoof.antt =====
-- go-daemon/pkg/wsbridge/bridge.go: no frame of a client makes the node speak in another name.
use ripple.Prelude.{
  ℕ, Text, bytes, ◌≡◌, refl, ap, ◌∙◌, Option, none, some, List, [], ◌++◌, All, is_empty, text_eq,
  Option-cases, inl, inr, Dict, if◌then◌else◌,
}
use ripple.Message.{Message, SosPayload}
use ripple.Message.Kinds.{sos_urgency_high}
use ripple.Message.Make.{new_sos, parse_sos_payload}
use ripple.Mesh.Node.{Effect, World}
use ripple.Mesh.Handle.{send_message}
use ripple.Sos.{Manager as SosManager, send_alert, send_parsed}
use ripple.FileTransfer.{Transfer}
use ripple.Identity.{Result}
use ripple.Bridge.{Problem, Bridge, WsIncoming, Outside}
use ripple.Bridge.Clients.{send_to}
use ripple.Bridge.Calls.{at_rest}
use ripple.Bridge.Requests.{
  send_pong, after_alert, start_alert, handle_incoming_sos, start_file, handle_incoming_file,
  reply_seed, handle_seed_export, handle_request, handle_incoming,
}
use ripple.Prelude.{either}
use ripple.Bridge.Author.{IsAuthored, send_message-IsAuthored}
use ripple.Bridge.Spoken.{
  Spoke, Speaks, nothing, call_back-world, hear_files-world, after_call-Spoke, complain-Spoke,
  chat-Spoke, key_exchange-Spoke,
}

module _ {F P Q : Type 0} (o : Outside F P Q) (n : ℕ) (who : Text) where
  -- The alert's manager is at a node that has done nothing yet.
  send_parsed-IsAuthored :
      (msg : Message) (p : SosPayload F) (m : SosManager F)
      → msg.sender ≡ who
      → m.world.trace ≡ []
      → All (IsAuthored who) (send_parsed o.env o.now msg p m).0.world.trace
  unfolding send_parsed
  send_parsed-IsAuthored msg p m e rest =
      let spoken = send_message-IsAuthored who o.env msg m.world e (rw rest tt) in
      either (λ (x : SosManager F × Option Text). All (IsAuthored who) x.0.world.trace)
        (send_message o.env msg m.world).1 spoken spoken

  send_alert-IsAuthored :
      (sender text level nick : Text) (lat lon acc : F) (m : SosManager F)
      → sender ≡ who
      → m.world.trace ≡ []
      → All
          (IsAuthored who)
          (send_alert o.env o.now o.milli o.new_id sender nick text level lat lon acc
            m).0.world.trace
  unfolding send_alert
  send_alert-IsAuthored sender text level nick lat lon acc m e rest =
      let msg =
        new_sos o.env.json o.new_id o.milli o.now sender nick text
          (if is_empty level then sos_urgency_high else level) lat lon acc in
      elim (Option-cases (parse_sos_payload o.env.json msg)) [
        | inl bad ↦ rw (bad, send_alert) (rw rest tt)
        | inr (p, read) ↦
            rw (read, send_alert) (send_parsed-IsAuthored msg p m (unfold new_sos in e) rest)
      ]

  after_alert-Spoke :
      (r : Option Text) (before : List Effect) (b : Bridge F P Q)
      → Spoke o n who before b
      → Spoke o n who before (after_alert n r b)
  unfolding after_alert
  after_alert-Spoke none before b h = complain-Spoke o n who _ before b h
  after_alert-Spoke (some id) before b h = h

  start_alert-Spoke :
      (p : SosPayload F) (m : SosManager F) (b : Bridge F P Q)
      → b.peer_id ≡ who
      → Speaks o n who b (start_alert o n p m b)
  unfolding start_alert
  start_alert-Spoke p m b h =
      let sent =
        send_alert o.env o.now o.milli o.new_id b.peer_id b.nickname p.message
          (if is_empty p.urgency then sos_urgency_high else p.urgency) p.latitude p.longitude
          p.accuracy (record m { world = at_rest b.world; notices = [] }) in
      let spoke =
        after_call-Spoke o n who sent.0.world (record b { sos = some sent.0 })
          (send_alert-IsAuthored b.peer_id p.message _ b.nickname p.latitude p.longitude p.accuracy
            _ h refl) in
      after_alert-Spoke sent.1 b.world.trace _ (record {
        said = spoke.said;
        since =
            ap (λ (w : World F). w.trace) (call_back-world o n who sent.0.notices _) ∙ spoke.since;
        authored = spoke.authored;
      })

  sos-Spoke :
      (i : WsIncoming) (b : Bridge F P Q)
      → b.peer_id ≡ who
      → Speaks o n who b (handle_incoming_sos o n i b)
  unfolding handle_incoming_sos
  sos-Spoke i b h =
      let complained =
        λ (e : Problem). complain-Spoke o n who e b.world.trace b (nothing o n who b) in
      elim (Option-cases b.sos) [
        | inl unset ↦ rw (unset, handle_incoming_sos) (complained _)
        | inr (m, set) ↦ elim (Option-cases (o.env.json.to_sos i.payload)) [
          | inl bad ↦ rw (set, handle_incoming_sos) (rw (bad, handle_incoming_sos) (complained _))
          | inr (p, read) ↦
              rw (set, handle_incoming_sos)
                (rw (read, handle_incoming_sos)
                  (either (Speaks o n who b) (is_empty p.message) (complained _)
                    (start_alert-Spoke p m b h)))
        ]
      ]

  start_file-Spoke :
      (i : WsIncoming) (path : Text) (ts : Dict (Transfer F)) (b : Bridge F P Q)
      → Speaks o n who b (start_file o n i path ts b)
  unfolding start_file
  start_file-Spoke i path ts b = elim (Option-cases (o.file_at path)) [
    | inl missing ↦ rw (missing, start_file) (complain-Spoke o n who _ _ b (nothing o n who b))
    | inr ((name, size, reads), found) ↦
        rw (found, start_file)
          (record {
            said = [];
            since = ap (λ (w : World F). w.trace) (hear_files-world o n who _ _);
            authored = tt;
          })
  ]

  file-Spoke : (i : WsIncoming) (b : Bridge F P Q) → Speaks o n who b (handle_incoming_file o n i b)
  unfolding handle_incoming_file
  file-Spoke i b =
      let complained =
        λ (e : Problem). complain-Spoke o n who e b.world.trace b (nothing o n who b) in
      elim (Option-cases b.files) [
        | inl unset ↦ rw (unset, handle_incoming_file) (complained _)
        | inr (ts, set) ↦
            rw (set, handle_incoming_file)
              (either (Speaks o n who b) (is_empty i.recipient) (complained _)
                (elim (Option-cases (o.to_file_path i.payload)) [
                  | inl bad ↦ rw (bad, handle_incoming_file) (complained _)
                  | inr (path, read) ↦
                      rw (read, handle_incoming_file)
                        (either (Speaks o n who b) (is_empty path) (complained _) (
                          either (Speaks o n who b) (is_empty i.id) (complained _)
                            (start_file-Spoke i path ts b)))
                ]))
      ]

  reply_seed-Spoke : (r : Result Text) (b : Bridge F P Q) → Speaks o n who b (reply_seed n r b)
  unfolding reply_seed send_to
  reply_seed-Spoke (ripple.Identity.failed e) b = complain-Spoke o n who _ _ b (nothing o n who b)
  reply_seed-Spoke (ripple.Identity.done phrase) b = record {
    said = [];
    since = refl;
    authored = tt;
  }

  seed-Spoke : (b : Bridge F P Q) → Speaks o n who b (handle_seed_export o n b)
  unfolding handle_seed_export
  seed-Spoke b = elim (Option-cases b.identity) [
    | inl unset ↦ rw (unset, handle_seed_export) (complain-Spoke o n who _ _ b (nothing o n who b))
    | inr (id, set) ↦ rw (set, handle_seed_export) (reply_seed-Spoke _ b)
  ]

  request-Spoke :
      (i : WsIncoming) (b : Bridge F P Q)
      → b.peer_id ≡ who
      → Speaks o n who b (handle_request o n i b)
  unfolding handle_request send_pong send_to
  request-Spoke i b h =
      let S = Speaks o n who b in
      either S (text_eq i.kind (bytes "chat")) (chat-Spoke o n who i b h) (
        either S (text_eq i.kind (bytes "key_exchange")) (key_exchange-Spoke o n who i b h) (
          either S (text_eq i.kind (bytes "sos")) (sos-Spoke i b h) (
            either S (text_eq i.kind (bytes "file")) (file-Spoke i b) (
              either S (text_eq i.kind (bytes "seed_export")) (seed-Spoke b) (
                either S (text_eq i.kind (bytes "ping"))
                  (record { said = []; since = refl; authored = tt })
                  (complain-Spoke o n who _ _ b (nothing o n who b)))))))

-- Whatever a client sends, every message that the node publishes or hands to a peer because of it bears the
-- node's own peer ID as its sender; and the node hands the application no message and counts no peer as
-- joined or left.
pub handle_incoming-IsAuthored :
    {F P Q : Type 0} (o : Outside F P Q) (n : ℕ) (text : Text) (b : Bridge F P Q)
    → (said : List Effect) × ((handle_incoming o n text b).world.trace ≡ said ++ b.world.trace)
      × All (IsAuthored b.peer_id) said
unfolding handle_incoming
handle_incoming-IsAuthored o n text b =
    let spoke : Speaks o n b.peer_id b (handle_incoming o n text b) =
      elim (Option-cases (o.to_incoming text)) [
        | inl bad ↦
            rw (bad, handle_incoming) (complain-Spoke o n b.peer_id _ _ b (nothing o n b.peer_id b))
        | inr (i, read) ↦ rw (read, handle_incoming) (request-Spoke o n b.peer_id i b refl)
      ] in
    (spoke.said, spoke.since, spoke.authored)
