-- ===== src/Crypto/Manager.antt =====
-- go-daemon/pkg/crypto/box.go: the manager, which knows the peers' keys and caches the shared ones.
-- Each method is one step, which its lock makes it, but for `DecryptMessage`: where it falls back on other keys it
-- takes the lock again, so that what is shown of it holds of calls that do not overlap a change of the keys. `saves` says whether the file of the known keys can be
-- written.
use ripple.Prelude.{Text, Option, none, some, [], Bool, not, Dict, lookup, insert, erase}
use ripple.Prelude.{contains, map, ltb, length, take, hex_decode, is_empty, if◌then◌else◌, List}
use ripple.Message.{Message, Json}
use ripple.Message.Hops.{is_encrypted}
use ripple.Crypto.{
  Keypair, NaCl, not_saved, no_shared_key, not_encrypted, missing_sender, bad_hex, bad_key_exchange,
  invalid_public_key, Outcome, done, failed, shared_secret, encrypt, decrypt,
}
use ripple.Crypto.Keys.{
  read_key, key_id, public_key_hex, load_known_keys, Stored, missing, unreadable, holds,
}

pub record Manager : Type 0 where
  pub keypair : Keypair
  pub known_keys : Dict Text
  pub shared_cache : Dict Text

-- `NewManager`, with the keypair that was loaded or created and the file of the known keys.
unfoldable pub new_manager : Keypair → Stored (Dict Text) → Manager
new_manager kp file = record {
  keypair = kp;
  known_keys = elim file [ missing ↦ [] | unreadable ↦ [] | holds keys ↦ load_known_keys keys [] ];
  shared_cache = [];
}

-- `SetPeerKey`; an error of the save leaves the key set.
unfoldable pub set_peer_key : Bool → Text → Text → Manager → Outcome (Unit {0}) × Manager
set_peer_key saves id key m = (
  (if saves then done tt else failed not_saved),
  record m { known_keys = insert id key m.known_keys; shared_cache = erase id m.shared_cache },
)

unfoldable pub get_peer_key : Text → Manager → Option Text
get_peer_key id m = lookup id m.known_keys

unfoldable pub has_peer_key : Text → Manager → Bool
has_peer_key id m = contains id m.known_keys

unfoldable pub known_peer_ids : Manager → List Text
known_peer_ids m = map (λ e. e.0) m.known_keys

unfoldable pub should_send_key_exchange : Text → Manager → Bool
should_send_key_exchange id m = not (contains id m.known_keys)

unfoldable pub my_public_key_hex : Manager → Text
my_public_key_hex m = public_key_hex m.keypair

unfoldable pub my_key_id : Manager → Text
my_key_id m = key_id m.keypair

-- `ImportKeyFromHex`
unfoldable pub import_key_from_hex : Bool → Text → Text → Manager → Outcome (Unit {0}) × Manager
import_key_from_hex saves id text m = elim (read_key text) [
  | none ↦ (failed invalid_public_key, m)
  | some key ↦ set_peer_key saves id key m
]

module _ {F : Type 0} (json : Json F) where
  -- `HandleKeyExchangeMessage`: `none` is the panic of `pubBytes[:32]` on fewer bytes.
  unfoldable pub handle_key_exchange_message :
      Bool → Message → Manager → Option (Outcome (Unit {0}) × Manager)
  handle_key_exchange_message saves msg m = elim (json.to_key msg.payload) [
    | none ↦ some (failed bad_key_exchange, m)
    | some payload ↦ elim (hex_decode payload.public_key_hex) [
      | none ↦ some (failed bad_hex, m)
      | some bs ↦
          if ltb (length bs) 32
          then none
          else some (done tt, (set_peer_key saves msg.sender (take 32 bs) m).1)
    ]
  ]

-- The fields that `EncryptMessage` sets, from the encrypted payload.
unfoldable pub seal_message : Manager → Message → Text → Message
seal_message m msg encrypted = record msg {
  payload = encrypted;
  nonce = take 48 encrypted;
  key_id = my_key_id m;
}

module _ (nacl : NaCl) where
  -- `GetSharedKey`
  unfoldable pub get_shared_key : Text → Manager → Outcome Text × Manager
  get_shared_key id m = elim (lookup id m.shared_cache) [
    | some cached ↦ (done cached, m)
    | none ↦ elim (lookup id m.known_keys) [
      | none ↦ (failed no_shared_key, m)
      | some key ↦
          let shared = shared_secret nacl m.keypair.private_key key in
          (done shared, record m { shared_cache = insert id shared m.shared_cache })
    ]
  ]

  unfoldable pub encrypt_with :
      Option Text → Message → Outcome Text × Manager → Outcome Message × Manager
  encrypt_with random msg (failed e, m) = (failed e, m)
  encrypt_with random msg (done key, m) = elim (encrypt nacl random msg.payload key) [
    | failed e ↦ (failed e, m)
    | done text ↦ (done (seal_message m msg text), m)
  ]

  -- `EncryptMessage`: the message as it is after the call, and the manager.
  unfoldable pub encrypt_message : Option Text → Message → Manager → Outcome Message × Manager
  encrypt_message random msg m =
      if is_empty msg.recipient
      then (done msg, m)
      else encrypt_with random msg (get_shared_key msg.recipient m)

  -- The key that `DecryptMessage` uses, with its second attempt.
  unfoldable pub sender_key : Text → Outcome Text × Manager → Outcome Text × Manager
  sender_key id (done key, m) = (done key, m)
  sender_key id (failed e, m) = elim (get_peer_key id m) [
    | none ↦ (failed no_shared_key, m)
    | some key ↦
        let shared = shared_secret nacl m.keypair.private_key key in
        (done shared, record m { shared_cache = insert id shared m.shared_cache })
  ]

  unfoldable pub decrypt_with : Message → Outcome Text × Manager → Outcome Message × Manager
  decrypt_with msg (failed e, m) = (failed e, m)
  decrypt_with msg (done key, m) = elim (decrypt nacl msg.payload key) [
    | failed e ↦ (failed e, m)
    | done plaintext ↦ (done (record msg { payload = plaintext; nonce = []; key_id = [] }), m)
  ]

  -- `DecryptMessage`
  unfoldable pub decrypt_message : Message → Manager → Outcome Message × Manager
  decrypt_message msg m =
      if not (is_encrypted msg)
      then (failed not_encrypted, m)
      else if is_empty msg.sender
      then (failed missing_sender, m)
      else decrypt_with msg (sender_key msg.sender (get_shared_key msg.sender m))
