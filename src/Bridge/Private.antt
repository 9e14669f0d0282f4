-- ===== src/Bridge/Private.antt =====
-- go-daemon/pkg/wsbridge/bridge.go: a chat message from a client of one node to the clients of another, end
-- to end encrypted.
use ripple.Prelude.{
  Text, ℤ, ◌≡◌, refl, ap, sym, ◌∙◌, Option, none, some, [], Bool, true, false, arith, All, map,
  is_empty, text_eq, text_dec, Option-cases, inl, inr, IsByte, if_true, if_false, if◌then◌else◌,
}
use ripple.Message.{Message}
use ripple.Message.Kinds.{type_chat, type_file, type_sos, type_delivery_ack, type_key_exchange}
use ripple.Message.Make.{new_chat}
use ripple.Message.Hops.{is_encrypted}
use ripple.Crypto.{NaCl, Outcome, done, failed, encrypt}
use ripple.Crypto.Manager.{
  Manager, encrypt_message, encrypt_with, seal_message, get_peer_key, get_shared_key,
  decrypt_message,
}
use ripple.Crypto.RoundTrip.{SealLaws, IsNonce, decrypt_message-encrypt_message}
use ripple.Crypto.Coherent.{IsCoherent}
use ripple.Bridge.{message_frame, Bridge, WsIncoming, Outside}
use ripple.Bridge.Clients.{offer_listed, broadcast}
use ripple.Bridge.Feed.{
  cache_nickname, dispatch, after_decrypt, decrypt_and_dispatch, handle_mesh_message,
}
use ripple.Bridge.Requests.{chat_of, seal_chat}
use ripple.Prelude.{either}

-- A message as it arrives: the hops and the copies that it took are counted.
abbrev pub carry : ℤ → ℤ → ℤ → Message → Message
carry ttl hops copies m = record m { ttl = ttl; hop_count = hops; copies_made = copies }

module _ (ttl hops copies : ℤ) where
  abbrev carried : Outcome Message → Outcome Message
  carried (done x) = done (carry ttl hops copies x)
  carried (failed e) = failed e

  module _ (nacl : NaCl) (nonce : Option Text) where
    encrypt_with-carry :
        (msg : Message) (p : Outcome Text × Manager)
        → (encrypt_with nacl nonce (carry ttl hops copies msg) p).0
          ≡ carried (encrypt_with nacl nonce msg p).0
    unfolding encrypt_with seal_message
    encrypt_with-carry msg (failed e, m) = refl
    encrypt_with-carry msg (done key, m) = both (encrypt nacl nonce msg.payload key)
      where
        both :
            (t : Outcome Text)
            → (elim t as (λ _. Outcome Message × Manager) [
              | failed e ↦ (failed e, m)
              | done text ↦ (done (seal_message m (carry ttl hops copies msg) text), m)
            ]).0
              ≡ carried
                  (elim t as (λ _. Outcome Message × Manager) [
                    | failed e ↦ (failed e, m)
                    | done text ↦ (done (seal_message m msg text), m)
                  ]).0
        both (failed e) = refl
        both (done text) = refl

    encrypt_message-carry :
        (msg : Message) (m : Manager)
        → (encrypt_message nacl nonce (carry ttl hops copies msg) m).0
          ≡ carried (encrypt_message nacl nonce msg m).0
    unfolding encrypt_message
    encrypt_message-carry msg m = branch (is_empty msg.recipient)
      where
        branch :
            (b : Bool)
            → (if b
                then (done (carry ttl hops copies msg), m)
                else encrypt_with nacl nonce
                    (carry ttl hops copies msg)
                    (get_shared_key nacl msg.recipient m)).0
              ≡ carried
                  (if b
                    then (done msg, m)
                    else encrypt_with nacl nonce msg (get_shared_key nacl msg.recipient m)).0
        branch true = refl
        branch false = encrypt_with-carry msg (get_shared_key nacl msg.recipient m)

    -- What a carried message was before.
    uncarried :
        (r : Outcome Message) (s : Message)
        → carried r ≡ done s
        → (x : Message) × (r ≡ done x) × (carry ttl hops copies x ≡ s)
    uncarried (done x) s e = (x, refl, cc)
    uncarried (failed e') s e = cc

decrypt-is_encrypted :
    (nacl : NaCl) (msg x : Message) (m : Manager)
    → (decrypt_message nacl msg m).0 ≡ done x
    → is_encrypted msg ≡ true
unfolding decrypt_message
decrypt-is_encrypted nacl msg x m e = ground arith

module _ {F P Q : Type 0} (o : Outside F P Q) where
  chat_of-fields :
      (i : WsIncoming) (b : Bridge F P Q)
      → ((chat_of o i b).kind ≡ type_chat)
        × ((chat_of o i b).payload ≡ i.payload)
        × ((chat_of o i b).recipient ≡ i.recipient)
        × ((chat_of o i b).sender ≡ b.peer_id)
        × (record (chat_of o i b) { nonce = []; key_id = [] } ≡ chat_of o i b)
  unfolding chat_of new_chat
  chat_of-fields i b =
      either
        (λ (m : Message).
          (m.kind ≡ type_chat)
          × (m.payload ≡ i.payload)
          × (m.recipient ≡ i.recipient)
          × (m.sender ≡ b.peer_id)
          × (record m { nonce = []; key_id = [] } ≡ m))
        (is_empty i.id) (refl, refl, refl, refl, refl) (refl, refl, refl, refl, refl)

  seal_chat-done :
      (msg x : Message) (b : Bridge F P Q) (m : Manager)
      → is_empty msg.recipient ≡ false
      → b.e2e ≡ some m
      → (encrypt_message o.nacl o.nonce msg m).0 ≡ done x
      → (seal_chat o msg b).0 ≡ x
  unfolding seal_chat
  seal_chat-done msg x b m named set e = ground (arith, named, set, e)

  cache_nickname-same :
      (msg : Message) (b : Bridge F P Q)
      → ((cache_nickname o msg b).e2e ≡ b.e2e) × ((cache_nickname o msg b).clients ≡ b.clients)
  unfolding cache_nickname
  cache_nickname-same msg b =
      elim (Option-cases (if is_empty msg.sender then none else o.env.decode msg.sender)) [
        | inl unknown ↦ rw (unknown, cache_nickname) (refl, refl)
        | inr (pid, known) ↦
            rw (known, cache_nickname)
              (either (λ (c : Bridge F P Q). (c.e2e ≡ b.e2e) × (c.clients ≡ b.clients))
                (is_empty msg.sender_nick) (refl, refl) (refl, refl))
      ]

  -- A chat message is none of the other kinds.
  chat_alone :
      (kind : Text)
      → kind ≡ type_chat
      → (text_eq kind type_file ≡ false)
        × (text_eq kind type_sos ≡ false)
        × (text_eq kind type_delivery_ack ≡ false)
        × (text_eq kind type_key_exchange ≡ false)
  unfolding text_dec
  chat_alone kind h = rw h (refl, refl, refl, refl)

  dispatch-chat :
      (e : Bool) (msg : Message) (b : Bridge F P Q)
      → msg.kind ≡ type_chat
      → (dispatch o e msg b).clients ≡ map (offer_listed (message_frame msg e)) b.clients
  unfolding dispatch broadcast
  dispatch-chat e msg b h =
      let (file, sos, ack, key) = chat_alone msg.kind h in
      ap (λ (c : Bridge F P Q). c.clients)
        (if_false _ file ∙ if_false _ sos ∙ if_false _ ack ∙ if_false _ key)

  after_decrypt-done :
      (r : Outcome Message × Manager) (plain : Message) (b : Bridge F P Q)
      → r.0 ≡ done plain
      → (after_decrypt o r b).clients
        ≡ (dispatch o true plain (record b { e2e = some r.1 })).clients
  unfolding after_decrypt
  after_decrypt-done (failed e', m) plain b e = cc
  after_decrypt-done (done p, m) plain b e =
      let same : p ≡ plain = cc in
      ap (λ x. (dispatch o true x (record b { e2e = some m })).clients) same

  handle-decrypted :
      (msg plain : Message) (b : Bridge F P Q) (m : Manager)
      → b.e2e ≡ some m
      → (decrypt_message o.nacl msg m).0 ≡ done plain
      → plain.kind ≡ type_chat
      → (handle_mesh_message o msg b).clients
        ≡ map (offer_listed (message_frame plain true)) b.clients
  unfolding handle_mesh_message decrypt_and_dispatch
  handle-decrypted msg plain b m set e chat =
      let (keys, cs) = cache_nickname-same msg b in
      let c = cache_nickname o msg b in
      let sealed : (if is_encrypted msg then c.e2e else none) ≡ some m =
        if_true _ (decrypt-is_encrypted o.nacl msg plain m e) ∙ keys ∙ set in
      rw (sealed, decrypt_and_dispatch)
        (after_decrypt-done (decrypt_message o.nacl msg m) plain c e
          ∙ dispatch-chat true plain _ chat
          ∙ ap (map (offer_listed (message_frame plain true))) cs)

-- Between two bridges whose managers have coherent caches, know each other's public key and agree on a
-- shared secret, a chat message of bytes with a recipient that a client of the one sends is sealed, and when
-- it has arrived, whatever its hops were, every listed client of the other is offered the message in plain
-- as the first bridge made it, marked as encrypted. Both use one NaCl that opens what it sealed.
pub handle_mesh_message-chat :
    {F P Q : Type 0} (from to : Outside F P Q) (i : WsIncoming) (a b : Bridge F P Q)
    (ma mb : Manager) (nonce : Text) (ttl hops copies : ℤ)
    → SealLaws from.nacl
    → to.nacl ≡ from.nacl
    → a.e2e ≡ some ma
    → b.e2e ≡ some mb
    → IsCoherent from.nacl ma
    → IsCoherent from.nacl mb
    → get_peer_key i.recipient ma ≡ some mb.keypair.public_key
    → get_peer_key a.peer_id mb ≡ some ma.keypair.public_key
    → from.nacl.precompute ma.keypair.private_key mb.keypair.public_key
      ≡ from.nacl.precompute mb.keypair.private_key ma.keypair.public_key
    → from.nonce ≡ some nonce
    → IsNonce nonce
    → All IsByte i.payload
    → is_empty i.recipient ≡ false
    → is_empty a.peer_id ≡ false
    → (handle_mesh_message to
        (carry ttl hops copies (seal_chat from (chat_of from i a) a).0)
        b).clients
      ≡ map (offer_listed (message_frame (carry ttl hops copies (chat_of from i a)) true)) b.clients
handle_mesh_message-chat from to i a b ma mb nonce ttl hops copies laws same seta setb ca cb ka kb
      agree drawn hn bytes_ok addressed named =
    let chat = chat_of from i a in
    let (kind, payload, recipient, sender, plain) = chat_of-fields from i a in
    let msg = carry ttl hops copies chat in
    let (sealed, enc, dec) =
      decrypt_message-encrypt_message from.nacl laws ma mb msg nonce ca cb
        (ap (λ r. get_peer_key r ma) recipient ∙ ka) (ap (λ r. get_peer_key r mb) sender ∙ kb) agree
        hn (rw payload bytes_ok) (ap is_empty recipient ∙ addressed) (ap is_empty sender ∙ named) in
    let (x, done_x, over) =
      uncarried ttl hops copies from.nacl (some nonce)
        (encrypt_message from.nacl (some nonce) chat ma).0 sealed
        (sym (encrypt_message-carry ttl hops copies from.nacl (some nonce) chat ma) ∙ enc) in
    let went : (seal_chat from chat a).0 ≡ x =
      seal_chat-done from chat x a ma (ap is_empty recipient ∙ addressed) seta
        (ap (λ r. (encrypt_message from.nacl r chat ma).0) drawn ∙ done_x) in
    let opened : (decrypt_message to.nacl (carry ttl hops copies (seal_chat from chat a).0) mb).0
        ≡ done msg =
      ap (λ n. (decrypt_message n (carry ttl hops copies (seal_chat from chat a).0) mb).0) same
      ∙ ap (λ y. (decrypt_message from.nacl (carry ttl hops copies y) mb).0) went
      ∙ ap (λ y. (decrypt_message from.nacl y mb).0) over
      ∙ dec
      ∙ ap (λ y. done (carry ttl hops copies y)) plain in
    handle-decrypted to (carry ttl hops copies (seal_chat from chat a).0) msg b mb setb opened kind
