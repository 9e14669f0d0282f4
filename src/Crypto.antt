-- ===== src/Crypto.antt =====
-- go-daemon/pkg/crypto/box.go: end-to-end encryption.
-- A key and a nonce are lists of bytes. NaCl, which the code only calls, is the record `NaCl`; what
-- `rand.Reader` gave is an argument, `none` where it failed. An error is a value of `CryptoError`.
pub mod Keys
pub mod Manager
pub mod Coherent
pub mod Cache
pub mod RoundTrip
pub mod Tests
use ripple.Prelude.{ℕ, ◌+◌, Text, Option, none, some, ◌++◌, ltb, length, take, drop, hex_encode}
use ripple.Prelude.{hex_decode, if◌then◌else◌}

pub record Keypair : Type 0 where
  pub public_key : Text
  pub private_key : Text

-- `golang.org/x/crypto/nacl`: `box.Precompute` from a private key and a peer's public one, and
-- `secretbox.Seal` and `secretbox.Open` with nonce, key and text.
pub record NaCl : Type 0 where
  pub precompute : Text → Text → Text
  pub secretbox_seal : Text → Text → Text → Text
  pub secretbox_open : Text → Text → Text → Option Text

pub data CryptoError : Type 0 where
  no_keypair : CryptoError
  unreadable_file : CryptoError
  invalid_public_key : CryptoError
  invalid_private_key : CryptoError
  not_saved : CryptoError
  no_random : CryptoError
  no_shared_key : CryptoError
  not_encrypted : CryptoError
  missing_sender : CryptoError
  bad_hex : CryptoError
  ciphertext_too_short : CryptoError
  open_failed : CryptoError
  bad_key_exchange : CryptoError

pub data Outcome {ℓ} (A : Type ℓ) : Type ℓ where
  done : A → Outcome A
  failed : CryptoError → Outcome A

abbrev pub nonce_size : ℕ
nonce_size = 24

module _ (nacl : NaCl) where
  -- `SharedSecret`
  unfoldable pub shared_secret : Text → Text → Text
  shared_secret own peer = nacl.precompute own peer

  -- `Encrypt`
  unfoldable pub encrypt : Option Text → Text → Text → Outcome Text
  encrypt none plaintext key = failed no_random
  encrypt (some nonce) plaintext key =
      done (hex_encode (nonce ++ nacl.secretbox_seal nonce key plaintext))

  unfoldable pub decrypt_bytes : Text → Text → Outcome Text
  decrypt_bytes cipher key =
      if ltb (length cipher) nonce_size
      then failed ciphertext_too_short
      else elim (nacl.secretbox_open (take nonce_size cipher) key (drop nonce_size cipher)) [
        | none ↦ failed open_failed
        | some plaintext ↦ done plaintext
      ]

  -- `Decrypt`
  unfoldable pub decrypt : Text → Text → Outcome Text
  decrypt text key = elim (hex_decode text) [
    | none ↦ failed bad_hex
    | some cipher ↦ decrypt_bytes cipher key
  ]
