-- ===== src/Bridge/Alerts.antt =====
-- go-daemon/pkg/wsbridge/bridge.go: how often the clients are told of an alert.
use ripple.Prelude.{refl, Text, ◌≡◌, ap, ◌∙◌, none, some, [], map, lookup}
use ripple.Message.{Message, SosPayload}
use ripple.Message.Make.{parse_sos_payload}
use ripple.Sos.{Manager, new_alert, acknowledge_sos, track, handle_incoming_sos}
use ripple.Bridge.{Frame, sos_frame, Bridge, Outside}
use ripple.Bridge.Clients.{offer_listed, broadcast}
use ripple.Prelude.{either}
use ripple.Bridge.Feed.{broadcast_sos, call_back, at_work, after_work, feed_sos}

module _ {F P Q : Type 0} (o : Outside F P Q) where
  -- The frame of an alert.
  abbrev pub alert_frame : Message → Frame F
  alert_frame msg = sos_frame msg (o.env.json.to_sos msg.payload)

  call_back-acknowledge :
      (msg : Message) (p : SosPayload F) (peer : Text) (m : Manager F) (c : Bridge F P Q)
      → m.notices ≡ []
      → call_back o (acknowledge_sos o.env o.now msg p peer m).notices c ≡ c
  unfolding acknowledge_sos call_back
  call_back-acknowledge msg p peer m c calm =
      let still = ap (λ ns. call_back o ns c) calm in
      either (λ (x : Manager F). call_back o x.notices c ≡ c) p.ack_required still still

  -- The manager tells the bridge of a new alert, and nothing else that the clients would hear.
  call_back-track :
      (msg : Message) (p : SosPayload F) (peer : Text) (m : Manager F) (b c : Bridge F P Q)
      → lookup msg.id m.alerts ≡ none
      → (call_back o (track o.env o.now msg p peer (at_work o m b)).notices c).clients
        ≡ map (offer_listed (alert_frame msg)) c.clients
  unfolding track call_back new_alert broadcast_sos broadcast
  call_back-track msg p peer m b c new =
      rw (new, track)
        (ap (λ (x : Bridge F P Q). map (offer_listed (alert_frame msg)) x.clients)
          (call_back-acknowledge msg p peer _ c refl))

  -- An alert that the manager takes and did not track is told to every listed client twice: by the manager's
  -- callback and by handleMeshMessage itself.
  pub feed_sos-twice :
      (msg : Message) (p : SosPayload F) (peer : Text) (m : Manager F) (b : Bridge F P Q)
      → b.sos ≡ some m
      → parse_sos_payload o.env.json msg ≡ some p
      → o.env.decode msg.sender ≡ some peer
      → lookup msg.id m.alerts ≡ none
      → (feed_sos o msg b).clients
        ≡ map (offer_listed (alert_frame msg)) (map (offer_listed (alert_frame msg)) b.clients)
  unfolding feed_sos broadcast_sos broadcast after_work
  feed_sos-twice msg p peer m b set parsed known new =
      let taken : (handle_incoming_sos o.env o.now msg (at_work o m b)).0
          ≡ track o.env o.now msg p peer (at_work o m b) =
        handled msg p peer (at_work o m b) parsed known in
      rw (set, feed_sos)
        (ap
            (λ (x : Manager F).
              map (offer_listed (alert_frame msg))
                (call_back o x.notices (record b { sos = some x; world = x.world })).clients)
            taken
          ∙ ap (map (offer_listed (alert_frame msg))) (call_back-track msg p peer m b _ new))
    where
      handled :
          (msg : Message) (p : SosPayload F) (peer : Text) (m : Manager F)
          → parse_sos_payload o.env.json msg ≡ some p
          → o.env.decode msg.sender ≡ some peer
          → (handle_incoming_sos o.env o.now msg m).0 ≡ track o.env o.now msg p peer m
      handled msg p peer m parsed known =
          unfold handle_incoming_sos in
          rw (parsed, handle_incoming_sos) (rw (known, handle_incoming_sos) refl)
