-- ===== src/Crypto/Coherent.antt =====
-- go-daemon/pkg/crypto/box.go: a manager whose cache agrees with the known keys, and the calls that keep
-- it so.
use ripple.Prelude.{Text, ◌≡◌, refl, ◌⊎◌, inl, inr, Option, none, some, Bool}
use ripple.Prelude.{arith, lookup, insert, lookup-insert, lookup-erase, Option-cases, Bool-cases}
use ripple.Prelude.{is_empty}
use ripple.Message.Hops.{is_encrypted}
use ripple.Message.{Message}
use ripple.Crypto.{NaCl, no_shared_key, Outcome, done, failed, shared_secret}
use ripple.Crypto.Manager.{
  Manager, set_peer_key, get_shared_key, get_peer_key, sender_key, encrypt_with, encrypt_message,
  decrypt_with, decrypt_message,
}

module _ (nacl : NaCl) where
  -- The shared key of a peer, from its public key.
  abbrev pub derived : Manager → Text → Option Text
  derived m id = elim (lookup id m.known_keys) [
    | none ↦ none
    | some key ↦ some (nacl.precompute m.keypair.private_key key)
  ]

  abbrev pub or_no_key : Option Text → Outcome Text
  or_no_key none = failed no_shared_key
  or_no_key (some key) = done key

  -- A cached key is the one derived from the peer's public key.
  unfoldable pub IsCoherent : Manager → Type 0
  IsCoherent m =
      (id : Text) → (lookup id m.shared_cache ≡ none) ⊎ (lookup id m.shared_cache ≡ derived m id)

  pub set_peer_key-IsCoherent :
      (saves : Bool) (id key : Text) (m : Manager)
      → IsCoherent m
      → IsCoherent (set_peer_key saves id key m).1
  unfolding IsCoherent set_peer_key
  set_peer_key-IsCoherent saves id key m h j =
      ground (arith, lookup-insert id j key m.known_keys, lookup-erase id j m.shared_cache, h j)

  -- To cache the derived key keeps the manager coherent.
  cached-IsCoherent :
      (id key : Text) (m : Manager)
      → lookup id m.known_keys ≡ some key
      → IsCoherent m
      → IsCoherent (record m {
        shared_cache = insert id (nacl.precompute m.keypair.private_key key) m.shared_cache;
      })
  unfolding IsCoherent
  cached-IsCoherent id key m known h j =
      let shared = nacl.precompute m.keypair.private_key key in
      ground (arith, lookup-insert id j shared m.shared_cache, h j, known)

  -- The answer of `GetSharedKey`, and that the manager stays coherent.
  pub record Answers (id : Text) (m : Manager) (r : Outcome Text × Manager) : Type 0 where
    pub answer : r.0 ≡ or_no_key (derived m id)
    pub coherent : IsCoherent r.1
    pub same_keys : (r.1.known_keys ≡ m.known_keys) × (r.1.keypair ≡ m.keypair)

  coherent_at :
      (id : Text) (m : Manager)
      → IsCoherent m
      → (lookup id m.shared_cache ≡ none) ⊎ (lookup id m.shared_cache ≡ derived m id)
  unfolding IsCoherent
  coherent_at id m h = h id

  pub get_shared_key-Answers :
      (id : Text) (m : Manager) → IsCoherent m → Answers id m (get_shared_key nacl id m)
  unfolding get_shared_key shared_secret
  get_shared_key-Answers id m h = elim (Option-cases (lookup id m.shared_cache)) [
    | inr (k, held) ↦ record {
      answer = ground (arith, coherent_at id m h);
      coherent = rw (held, get_shared_key) h;
      same_keys = ground arith;
    }
    | inl empty ↦ elim (Option-cases (lookup id m.known_keys)) [
      | inl unknown ↦ record {
        answer = ground arith;
        coherent = rw (empty, get_shared_key) (rw (unknown, get_shared_key) h);
        same_keys = ground arith;
      }
      | inr (key, known) ↦ record {
        answer = ground arith;
        coherent =
            rw (empty, get_shared_key)
              (rw (known, get_shared_key) (cached-IsCoherent id key m known h));
        same_keys = ground arith;
      }
    ]
  ]

  sender_key-IsCoherent :
      (id : Text) (r : Outcome Text × Manager)
      → IsCoherent r.1
      → IsCoherent (sender_key nacl id r).1
  unfolding sender_key shared_secret get_peer_key
  sender_key-IsCoherent id (done key, m) h = h
  sender_key-IsCoherent id (failed e, m) h = elim (Option-cases (lookup id m.known_keys)) [
    | inl unknown ↦ rw (unknown, sender_key) h
    | inr (key, known) ↦ rw (known, sender_key) (cached-IsCoherent id key m known h)
  ]

  encrypt_with_manager :
      (random : Option Text) (msg : Message) (r : Outcome Text × Manager)
      → (encrypt_with nacl random msg r).1 ≡ r.1
  unfolding encrypt_with
  encrypt_with_manager random msg (failed e, m) = refl
  encrypt_with_manager random msg (done key, m) = ground arith

  decrypt_with_manager :
      (msg : Message) (r : Outcome Text × Manager) → (decrypt_with nacl msg r).1 ≡ r.1
  unfolding decrypt_with
  decrypt_with_manager msg (failed e, m) = refl
  decrypt_with_manager msg (done key, m) = ground arith

  pub encrypt_message-IsCoherent :
      (random : Option Text) (msg : Message) (m : Manager)
      → IsCoherent m
      → IsCoherent (encrypt_message nacl random msg m).1
  unfolding encrypt_message
  encrypt_message-IsCoherent random msg m h = elim (Bool-cases (is_empty msg.recipient)) [
    | inl broadcast ↦ rw (broadcast, encrypt_message) h
    | inr addressed ↦
        rw (addressed, encrypt_message)
          (rw (encrypt_with_manager random msg (get_shared_key nacl msg.recipient m))
            (get_shared_key-Answers msg.recipient m h).coherent)
  ]

  pub decrypt_message-IsCoherent :
      (msg : Message) (m : Manager) → IsCoherent m → IsCoherent (decrypt_message nacl msg m).1
  unfolding decrypt_message
  decrypt_message-IsCoherent msg m h = elim (Bool-cases (is_encrypted msg)) [
    | inr plain ↦ rw (plain, decrypt_message) h
    | inl encrypted ↦ elim (Bool-cases (is_empty msg.sender)) [
      | inl anonymous ↦ rw (encrypted, decrypt_message) (rw (anonymous, decrypt_message) h)
      | inr named ↦
          let found = get_shared_key nacl msg.sender m in
          rw (encrypted, decrypt_message)
            (rw (named, decrypt_message)
              (rw (decrypt_with_manager msg (sender_key nacl msg.sender found)) (
                sender_key-IsCoherent msg.sender found
                  (get_shared_key-Answers msg.sender m h).coherent)))
    ]
  ]
