-- ===== src/Crypto/RoundTrip.antt =====
-- go-daemon/pkg/crypto/box.go: what is saved or encrypted is read back.
use ripple.Prelude.{Text, ◌≡◌, refl, sym, Option, some, [], ◌∷◌, ◌++◌, Bool, true, false}
use ripple.Prelude.{
  arith, All, All-append, length, take, drop, length-append, take-length-append, IsByte,
}
use ripple.Prelude.{drop-length-append, hex_encode, hex_decode-encode, is_empty, Dict, lookup}
use ripple.Prelude.{lookup-insert}
use ripple.Message.{Message}
use ripple.Message.Hops.{is_encrypted}
use ripple.Crypto.{Keypair, NaCl, done, encrypt, decrypt, decrypt_bytes}
use ripple.Crypto.Keys.{
  missing, save_keypair, read_key, load_keypair, load_or_create_keypair, save_known_keys,
  load_known_keys,
}
use ripple.Crypto.Manager.{
  Manager, get_peer_key, get_shared_key, seal_message, encrypt_with, encrypt_message, sender_key,
  decrypt_with, decrypt_message,
}
use ripple.Crypto.Coherent.{IsCoherent, get_shared_key-Answers}

-- A `[32]byte`.
pub record IsKey (key : Text) : Type 0 where
  pub size : length key ≡ 32
  pub of_bytes : All IsByte key

read_key-encode : (key : Text) → IsKey key → read_key (hex_encode key) ≡ some key
unfolding read_key
read_key-encode key h =
    rw (hex_decode-encode key h.of_bytes, read_key) (let n = h.size in ground arith)

-- A keypair of 32-byte keys that `LoadOrCreateKeypair` made and saved is the one that every later start loads, whatever
-- the random source would give then.
pub load_or_create_keypair-twice :
    (kp : Keypair) (generated : Option Keypair) (saves : Bool)
    → IsKey kp.public_key
    → IsKey kp.private_key
    → (load_or_create_keypair (load_or_create_keypair missing (some kp) true).1 generated saves).0
      ≡ done kp
unfolding load_or_create_keypair load_keypair save_keypair
load_or_create_keypair-twice kp generated saves pk sk =
    rw (read_key-encode kp.public_key pk, load_or_create_keypair, load_keypair)
      (rw (read_key-encode kp.private_key sk, load_or_create_keypair, load_keypair) refl)

-- Known keys of 32 bytes that were saved are those that a new manager loads.
pub load_known_keys-save :
    (known : Dict Text) (id : Text)
    → All (λ e. IsKey e.1) known
    → lookup id (load_known_keys (save_known_keys known) []) ≡ lookup id known
unfolding load_known_keys save_known_keys lookup
load_known_keys-save [] id h = refl
load_known_keys-save ((j, key) ∷ rest) id h =
    rw (read_key-encode key h.0, lookup, load_known_keys)
      (ground (
        arith,
        lookup-insert j id key (load_known_keys (save_known_keys rest) []),
        load_known_keys-save rest id h.1,
      ))

-- `secretbox` as its package documents it: sealed bytes are bytes, and the same nonce and key open them.
pub record SealLaws (nacl : NaCl) : Type 0 where
  pub opens :
      (nonce key text : Text)
      → nacl.secretbox_open nonce key (nacl.secretbox_seal nonce key text) ≡ some text
  pub seals_bytes :
      (nonce key text : Text) → All IsByte text → All IsByte (nacl.secretbox_seal nonce key text)

-- A nonce as `rand.Reader` fills it.
pub record IsNonce (nonce : Text) : Type 0 where
  pub size : length nonce ≡ 24
  pub of_bytes : All IsByte nonce

module _ (nacl : NaCl) (laws : SealLaws nacl) where
  decrypt-sealed :
      (nonce key text : Text)
      → IsNonce nonce
      → All IsByte text
      → decrypt nacl (hex_encode (nonce ++ nacl.secretbox_seal nonce key text)) key ≡ done text
  unfolding decrypt decrypt_bytes
  decrypt-sealed nonce key text h ht =
      let cipher = nacl.secretbox_seal nonce key text in
      let front : take 24 (nonce ++ cipher) ≡ nonce =
        rw (sym h.size) (take-length-append nonce cipher) in
      let back : drop 24 (nonce ++ cipher) ≡ cipher =
        rw (sym h.size) (drop-length-append nonce cipher) in
      rw
        (
          hex_decode-encode (nonce ++ cipher)
              (All-append IsByte nonce cipher h.of_bytes (laws.seals_bytes nonce key text ht)),
          decrypt,
        )
        (let n = length-append nonce cipher in
          let s = h.size in let o = laws.opens nonce key text in ground (arith, front, back))

  -- The nonce that `EncryptMessage` puts on the message is not empty.
  seal_message-is_encrypted :
      (m : Manager) (msg : Message) (nonce cipher : Text)
      → IsNonce nonce
      → is_encrypted (seal_message m msg (hex_encode (nonce ++ cipher))) ≡ true
  unfolding is_encrypted seal_message hex_encode
  seal_message-is_encrypted m msg [] cipher h = absurd (omega (arith, h.size))
  seal_message-is_encrypted m msg (b ∷ bs) cipher h = refl

  decrypt_sealed :
      (a b : Manager) (msg : Message) (nonce key : Text)
      → IsNonce nonce
      → All IsByte msg.payload
      → is_empty msg.sender ≡ false
      → (get_shared_key nacl msg.sender b).0 ≡ done key
      → (decrypt_message nacl
          (seal_message a msg (hex_encode (nonce ++ nacl.secretbox_seal nonce key msg.payload)))
          b).0
        ≡ done (record msg { nonce = []; key_id = [] })
  unfolding decrypt_message decrypt_with sender_key seal_message
  decrypt_sealed a b msg nonce key h ht named found =
      let cipher = nacl.secretbox_seal nonce key msg.payload in
      rw (seal_message-is_encrypted a msg nonce cipher h, decrypt_message)
        (ground (arith, decrypt-sealed nonce key msg.payload h ht))

  -- Between two managers with coherent caches that know each other's public key and agree on a shared
  -- secret, `EncryptMessage` of a message of bytes with a sender and a recipient succeeds, and
  -- `DecryptMessage` gives the message as it was, with an empty nonce and key ID.
  pub decrypt_message-encrypt_message :
      (a b : Manager) (msg : Message) (nonce : Text)
      → IsCoherent nacl a
      → IsCoherent nacl b
      → get_peer_key msg.recipient a ≡ some b.keypair.public_key
      → get_peer_key msg.sender b ≡ some a.keypair.public_key
      → nacl.precompute a.keypair.private_key b.keypair.public_key
        ≡ nacl.precompute b.keypair.private_key a.keypair.public_key
      → IsNonce nonce
      → All IsByte msg.payload
      → is_empty msg.recipient ≡ false
      → is_empty msg.sender ≡ false
      → (sealed : Message) × ((encrypt_message nacl (some nonce) msg a).0 ≡ done sealed)
        × ((decrypt_message nacl sealed b).0 ≡ done (record msg { nonce = []; key_id = [] }))
  unfolding encrypt_message encrypt_with encrypt get_peer_key
  decrypt_message-encrypt_message a b msg nonce ha hb ka kb agree h ht addressed named =
      let key = nacl.precompute a.keypair.private_key b.keypair.public_key in
      let cipher = nacl.secretbox_seal nonce key msg.payload in
      let ours = (get_shared_key-Answers nacl msg.recipient a ha).answer in
      let theirs = (get_shared_key-Answers nacl msg.sender b hb).answer in
      let found : (get_shared_key nacl msg.sender b).0 ≡ done key = ground arith in
      let a' = (get_shared_key nacl msg.recipient a).1 in
      (
        seal_message a' msg (hex_encode (nonce ++ cipher)),
        ground arith,
        decrypt_sealed a' b msg nonce key h ht named found,
      )
