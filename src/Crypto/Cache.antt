-- ===== src/Crypto/Cache.antt =====
-- go-daemon/pkg/crypto/box.go: the cache of shared keys never disagrees with the known keys.
use ripple.Prelude.{Text, ◌≡◌, refl, inl, inr, Option, none, some, List, [], ◌∷◌, Bool}
use ripple.Prelude.{arith, lookup, Dict, Option-cases, Bool-cases}
use ripple.Prelude.{hex_decode, ltb, length, take}
use ripple.Message.{Message, Json}
use ripple.Crypto.{Keypair, NaCl, no_shared_key, done, failed}
use ripple.Crypto.Keys.{Stored, read_key}
use ripple.Crypto.Manager.{
  Manager, new_manager, set_peer_key, import_key_from_hex, handle_key_exchange_message,
  get_shared_key, get_peer_key, encrypt_message, decrypt_message,
}
use ripple.Crypto.Coherent.{
  IsCoherent, get_shared_key-Answers, set_peer_key-IsCoherent, encrypt_message-IsCoherent,
  decrypt_message-IsCoherent,
}

-- A call of the manager by a key import, a message or the bridge.
pub data Call : Type 0 where
  set_key : Bool → Text → Text → Call
  import_key : Bool → Text → Text → Call
  key_exchange : Bool → Message → Call
  shared_key : Text → Call
  encryption : Option Text → Message → Call
  decryption : Message → Call

module _ {F : Type 0} (json : Json F) (nacl : NaCl) where
  -- The manager after a call; a call that panics leaves it alone.
  unfoldable pub after : Call → Manager → Manager
  after (set_key saves id key) m = (set_peer_key saves id key m).1
  after (import_key saves id text) m = (import_key_from_hex saves id text m).1
  after (key_exchange saves msg) m = elim (handle_key_exchange_message json saves msg m) [
    | none ↦ m
    | some r ↦ r.1
  ]
  after (shared_key id) m = (get_shared_key nacl id m).1
  after (encryption random msg) m = (encrypt_message nacl random msg m).1
  after (decryption msg) m = (decrypt_message nacl msg m).1

  unfoldable pub after_all : List Call → Manager → Manager
  after_all [] m = m
  after_all (c ∷ cs) m = after_all cs (after c m)

module _ {F : Type 0} (json : Json F) (nacl : NaCl) where
  import_key-IsCoherent :
      (saves : Bool) (id text : Text) (m : Manager)
      → IsCoherent nacl m
      → IsCoherent nacl (import_key_from_hex saves id text m).1
  unfolding import_key_from_hex
  import_key-IsCoherent saves id text m h = elim (Option-cases (read_key text)) [
    | inl bad ↦ rw (bad, import_key_from_hex) h
    | inr (key, good) ↦
        rw (good, import_key_from_hex) (set_peer_key-IsCoherent nacl saves id key m h)
  ]

  key_exchange-IsCoherent :
      (saves : Bool) (msg : Message) (m : Manager)
      → IsCoherent nacl m
      → IsCoherent nacl (after json nacl (key_exchange saves msg) m)
  unfolding after handle_key_exchange_message
  key_exchange-IsCoherent saves msg m h = elim (Option-cases (json.to_key msg.payload)) [
    | inl bad ↦ rw (bad, handle_key_exchange_message, after) h
    | inr (payload, parsed) ↦ elim (Option-cases (hex_decode payload.public_key_hex)) [
      | inl bad ↦
          rw (parsed, handle_key_exchange_message, after)
            (rw (bad, handle_key_exchange_message, after) h)
      | inr (bs, decoded) ↦ elim (Bool-cases (ltb (length bs) 32)) [
        | inl short ↦
            rw (parsed, handle_key_exchange_message, after)
              (rw (decoded, handle_key_exchange_message, after)
                (rw (short, handle_key_exchange_message, after) h))
        | inr long ↦
            rw (parsed, handle_key_exchange_message, after)
              (rw (decoded, handle_key_exchange_message, after)
                (rw (long, handle_key_exchange_message, after)
                  (set_peer_key-IsCoherent nacl saves msg.sender (take 32 bs) m h)))
      ]
    ]
  ]

  after-IsCoherent :
      (c : Call) (m : Manager) → IsCoherent nacl m → IsCoherent nacl (after json nacl c m)
  unfolding after
  after-IsCoherent (set_key saves id key) m h = set_peer_key-IsCoherent nacl saves id key m h
  after-IsCoherent (import_key saves id text) m h = import_key-IsCoherent saves id text m h
  after-IsCoherent (key_exchange saves msg) m h = key_exchange-IsCoherent saves msg m h
  after-IsCoherent (shared_key id) m h = (get_shared_key-Answers nacl id m h).coherent
  after-IsCoherent (encryption random msg) m h = encrypt_message-IsCoherent nacl random msg m h
  after-IsCoherent (decryption msg) m h = decrypt_message-IsCoherent nacl msg m h

  after_all-IsCoherent :
      (cs : List Call) (m : Manager)
      → IsCoherent nacl m
      → IsCoherent nacl (after_all json nacl cs m)
  unfolding after_all
  after_all-IsCoherent [] m h = h
  after_all-IsCoherent (c ∷ cs) m h =
      after_all-IsCoherent cs (after json nacl c m) (after-IsCoherent c m h)

  new_manager-IsCoherent :
      (kp : Keypair) (file : Stored (Dict Text)) → IsCoherent nacl (new_manager kp file)
  unfolding IsCoherent new_manager lookup
  new_manager-IsCoherent kp file id = inl refl

  -- Whatever keys were set, imported, exchanged and replaced, and whatever was encrypted and decrypted
  -- since the manager was made, `GetSharedKey` answers with the shared key of the peer's current
  -- public key, and with an error if and only if the peer has none: the cache is never stale.
  pub get_shared_key-after_all :
      (cs : List Call) (kp : Keypair) (file : Stored (Dict Text)) (id : Text)
      → (get_shared_key nacl id (after_all json nacl cs (new_manager kp file))).0
        ≡ elim (get_peer_key id (after_all json nacl cs (new_manager kp file))) [
          | none ↦ failed no_shared_key
          | some key ↦ done (
              nacl.precompute
                (after_all json nacl cs (new_manager kp file)).keypair.private_key
                key)
        ]
  unfolding get_peer_key
  get_shared_key-after_all cs kp file id =
      let m = after_all json nacl cs (new_manager kp file) in
      let coherent =
        after_all-IsCoherent cs (new_manager kp file) (new_manager-IsCoherent kp file) in
      ground (arith, (get_shared_key-Answers nacl id m coherent).answer)
