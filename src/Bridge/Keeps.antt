-- ===== src/Bridge/Keeps.antt =====
-- go-daemon/pkg/wsbridge/bridge.go: what every handler keeps of the clients. A property of a client that
-- holds on after a frame is offered to all holds on after each handler that only offers to all, and one
-- that also holds on after a frame is offered to the requester holds on after the requester's frames.
use ripple.Prelude.{
  either, Option, ◌≡◌, refl, none, some, List, [], ◌∷◌, Bool, true, false, All, map, text_eq,
  is_empty, Option-cases, inl, inr, if◌then◌else◌,
}
use ripple.Message.{Message}
use ripple.Message.Hops.{is_encrypted}
use ripple.Mesh.Node.{Effect, relay, publish, direct, on_message, on_peer_join, on_peer_leave}
use ripple.Sos.{Notice, on_sos_received, on_sos_expired, on_sos_ack, send_ack}
use ripple.Crypto.{Outcome, done, failed}
use ripple.Crypto.Manager.{Manager}
use ripple.Message.Kinds.{type_file, type_sos, type_delivery_ack, type_key_exchange}
use ripple.Bridge.{
  Frame, identity_frame, message_frame, sos_frame, file_frame, delivery_frame, key_frame,
  relay_frame, peer_frame, seed_frame, error_frame, pong_frame, Client, Bridge, Outside,
}
use ripple.Bridge.Clients.{offer_listed, broadcast}
use ripple.Bridge.Feed.{
  broadcast_relay, broadcast_sos, broadcast_file, broadcast_receipt, handle_peer_join,
  handle_peer_leave, cache_nickname, call_back, after_work, feed_sos, feed_receipt, broadcast_key,
  after_key, handle_key_exchange, after_decrypt, dispatch, decrypt_and_dispatch,
  handle_mesh_message,
}
use ripple.Bridge.Calls.{hear}

-- Whether a frame shows the backup phrase.
abbrev pub is_seed : {F : Type 0} → Frame F → Bool
is_seed (seed_frame phrase) = true
is_seed (identity_frame p n k) = false
is_seed (message_frame m e) = false
is_seed (sos_frame m p) = false
is_seed (file_frame i s d) = false
is_seed (delivery_frame i) = false
is_seed (key_frame p k t) = false
is_seed (relay_frame e) = false
is_seed (peer_frame p n o) = false
is_seed (error_frame p) = false
is_seed pong_frame = false

pub All-map :
    {A : Type 0} (P : A → Type 0) (g : A → A) (xs : List A)
    → ((x : A) → P x → P (g x))
    → All P xs
    → All P (map g xs)
All-map P g [] h hs = tt
All-map P g (x ∷ xs) h hs = (h x hs.0, All-map P g xs h hs.1)

module _ {F P Q : Type 0} (K : Client F → Type 0)
    (all : (f : Frame F) (c : Client F) → is_seed f ≡ false → K c → K (offer_listed f c)) where
  -- Every client has the property.
  abbrev pub Kept : Bridge F P Q → Type 0
  Kept b = All K b.clients

  pub broadcast-keeps :
      (f : Frame F) (b : Bridge F P Q)
      → is_seed f ≡ false
      → All K b.clients
      → All K (broadcast f b).clients
  unfolding broadcast
  broadcast-keeps f b h hs = All-map K (offer_listed f) b.clients (λ c. all f c h) hs

  module _ (o : Outside F P Q) where
    pub broadcast_file-keeps :
        (m : Message) (b : Bridge F P Q) → All K b.clients → All K (broadcast_file o m b).clients
    unfolding broadcast_file
    broadcast_file-keeps m b h = elim (Option-cases (o.env.json.to_file m.payload)) [
      | inl bad ↦ rw (bad, broadcast_file) h
      | inr (p, found) ↦ rw (found, broadcast_file) (broadcast-keeps _ b refl h)
    ]

    pub call_back-keeps :
        (ns : List (Notice F)) (b : Bridge F P Q)
        → All K b.clients
        → All K (call_back o ns b).clients
    unfolding call_back broadcast_sos
    call_back-keeps [] b h = h
    call_back-keeps (on_sos_received alert ∷ ns) b h =
        broadcast-keeps _ (call_back o ns b) refl (call_back-keeps ns b h)
    call_back-keeps (on_sos_expired id ∷ ns) b h = call_back-keeps ns b h
    call_back-keeps (on_sos_ack id p ∷ ns) b h = call_back-keeps ns b h
    call_back-keeps (send_ack p m ∷ ns) b h = call_back-keeps ns b h

    feed_sos-keeps :
        (m : Message) (b : Bridge F P Q) → All K b.clients → All K (feed_sos o m b).clients
    unfolding feed_sos after_work broadcast_sos
    feed_sos-keeps m b h = elim (Option-cases b.sos) [
      | inl unset ↦ rw (unset, feed_sos) (broadcast-keeps _ b refl h)
      | inr (s, set) ↦ rw (set, feed_sos) (broadcast-keeps _ _ refl (call_back-keeps _ _ h))
    ]

    broadcast_receipt-keeps :
        (m : Message) (b : Bridge F P Q) → All K b.clients → All K (broadcast_receipt o m b).clients
    unfolding broadcast_receipt
    broadcast_receipt-keeps m b h = elim (Option-cases (o.env.json.to_delivery m.payload)) [
      | inl bad ↦ rw (bad, broadcast_receipt) h
      | inr (p, found) ↦ rw (found, broadcast_receipt) (broadcast-keeps _ b refl h)
    ]

    feed_receipt-keeps :
        (m : Message) (b : Bridge F P Q) → All K b.clients → All K (feed_receipt o m b).clients
    unfolding feed_receipt after_work
    feed_receipt-keeps m b h = elim (Option-cases b.sos) [
      | inl unset ↦ rw (unset, feed_receipt) (broadcast_receipt-keeps m b h)
      | inr (s, set) ↦ rw (set, feed_receipt) (broadcast_receipt-keeps m _ (call_back-keeps _ _ h))
    ]

    broadcast_key-keeps :
        (m : Message) (b : Bridge F P Q) → All K b.clients → All K (broadcast_key o m b).clients
    unfolding broadcast_key
    broadcast_key-keeps m b h = elim (Option-cases (o.env.json.to_key m.payload)) [
      | inl bad ↦ rw (bad, broadcast_key) h
      | inr (p, found) ↦ rw (found, broadcast_key) (broadcast-keeps _ b refl h)
    ]

    after_key-keeps :
        (m : Message) (r : Option (Outcome (Unit {0}) × Manager)) (b : Bridge F P Q)
        → All K b.clients
        → All K (after_key o m r b).clients
    unfolding after_key
    after_key-keeps m none b h = h
    after_key-keeps m (some (failed e, x)) b h = h
    after_key-keeps m (some (done u, x)) b h = broadcast_key-keeps m _ h

    handle_key_exchange-keeps :
        (m : Message) (b : Bridge F P Q)
        → All K b.clients
        → All K (handle_key_exchange o m b).clients
    unfolding handle_key_exchange
    handle_key_exchange-keeps m b h = elim (Option-cases b.e2e) [
      | inl unset ↦ rw (unset, handle_key_exchange) h
      | inr (x, set) ↦ rw (set, handle_key_exchange) (after_key-keeps m _ b h)
    ]

    dispatch-keeps :
        (e : Bool) (m : Message) (b : Bridge F P Q)
        → All K b.clients
        → All K (dispatch o e m b).clients
    unfolding dispatch
    dispatch-keeps e m b h = either Kept (text_eq m.kind type_file) (broadcast_file-keeps m b h) (
        either Kept (text_eq m.kind type_sos) (feed_sos-keeps m b h) (
          either Kept (text_eq m.kind type_delivery_ack) (feed_receipt-keeps m b h) (
            either Kept (text_eq m.kind type_key_exchange) (handle_key_exchange-keeps m b h)
              (broadcast-keeps _ b refl h))))

    after_decrypt-keeps :
        (r : Outcome Message × Manager) (b : Bridge F P Q)
        → All K b.clients
        → All K (after_decrypt o r b).clients
    unfolding after_decrypt
    after_decrypt-keeps (failed e, x) b h = h
    after_decrypt-keeps (done m, x) b h = dispatch-keeps true m _ h

    cache_nickname-keeps :
        (m : Message) (b : Bridge F P Q) → All K b.clients → All K (cache_nickname o m b).clients
    unfolding cache_nickname
    cache_nickname-keeps m b h =
        elim (Option-cases (if is_empty m.sender then none else o.env.decode m.sender)) [
          | inl unknown ↦ rw (unknown, cache_nickname) h
          | inr (pid, known) ↦ rw (known, cache_nickname) (either Kept (is_empty m.sender_nick) h h)
        ]

    decrypt_and_dispatch-keeps :
        (m : Message) (b : Bridge F P Q)
        → All K b.clients
        → All K (decrypt_and_dispatch o m b).clients
    unfolding decrypt_and_dispatch
    decrypt_and_dispatch-keeps m b h =
        elim (Option-cases (if is_encrypted m then b.e2e else none)) [
          | inl plain ↦ rw (plain, decrypt_and_dispatch) (dispatch-keeps (is_encrypted m) m b h)
          | inr (x, sealed) ↦ rw (sealed, decrypt_and_dispatch) (after_decrypt-keeps _ b h)
        ]

    pub handle_mesh_message-keeps :
        (m : Message) (b : Bridge F P Q)
        → All K b.clients
        → All K (handle_mesh_message o m b).clients
    unfolding handle_mesh_message
    handle_mesh_message-keeps m b h =
        decrypt_and_dispatch-keeps m (cache_nickname o m b) (cache_nickname-keeps m b h)

    pub hear-keeps :
        (es : List Effect) (b : Bridge F P Q) → All K b.clients → All K (hear o es b).clients
    unfolding hear broadcast_relay handle_peer_join handle_peer_leave
    hear-keeps [] b h = h
    hear-keeps (relay e ∷ es) b h = broadcast-keeps _ _ refl (hear-keeps es b h)
    hear-keeps (on_message m ∷ es) b h = handle_mesh_message-keeps m _ (hear-keeps es b h)
    hear-keeps (on_peer_join p ∷ es) b h = broadcast-keeps _ _ refl (hear-keeps es b h)
    hear-keeps (on_peer_leave p ∷ es) b h = broadcast-keeps _ _ refl (hear-keeps es b h)
    hear-keeps (publish m ∷ es) b h = hear-keeps es b h
    hear-keeps (direct p m ∷ es) b h = hear-keeps es b h
