-- ===== src/Identity.antt =====
-- go-daemon/pkg/identity/identity.go and mnemonic.go: the keypair of a peer, its file and its phrase.
-- libp2p's keys, ed25519, PEM and BIP39, which the code only calls, are the record `KeyLibrary`; private and
-- public keys are types of their own. A file, a random source or a disk that fails is an argument.
pub mod Words
pub mod Mnemonic
pub mod Files
pub mod Laws
pub mod Tests
use ripple.Prelude.{
  ℕ, Text, bytes, Option, none, some, Bool, true, false, ◌||◌, not, length, take, ltb,
}
use ripple.Prelude.{text_eq, if◌then◌else◌}

-- What the libraries offer: `PrivKey.Raw` and `UnmarshalEd25519PrivateKey`, `GetPublic`, `IDFromPublicKey`,
-- the text of a peer ID, signatures, the public half of `NewKeyFromSeed`, a PEM block of a type and bytes,
-- and BIP39's `NewMnemonic` and `EntropyFromMnemonic`.
pub record KeyLibrary (P Q : Type 0) : Type 0 where
  pub raw : P → Option Text
  pub unmarshal : Text → Option P
  pub get_public : P → Q
  pub id_from_public_key : Q → Option Text
  pub id_string : Text → Text
  pub sign : P → Text → Option Text
  pub verify : Q → Text → Text → Option Bool
  pub public_of_seed : Text → Text
  pub pem_encode : Text → Text → Text
  pub pem_decode : Text → Option (Text × Text)
  pub new_mnemonic : Text → Option Text
  pub entropy_from_mnemonic : Text → Option Text

-- `Identity`
pub record Identity (P Q : Type 0) : Type 0 where
  pub priv_key : P
  pub pub_key : Q
  pub peer_id : Text

pub data IdentityError : Type 0 where
  no_identity : IdentityError
  unreadable_file : IdentityError
  invalid_file : IdentityError
  bad_key : IdentityError
  no_peer_id : IdentityError
  not_generated : IdentityError
  no_raw_key : IdentityError
  short_raw_key : IdentityError
  no_directory : IdentityError
  not_written : IdentityError
  not_encoded : IdentityError
  invalid_mnemonic : IdentityError

pub data Result {ℓ} (A : Type ℓ) : Type ℓ where
  done : A → Result A
  failed : IdentityError → Result A

abbrev pub seed_size : ℕ
seed_size = 32

abbrev pub test_message : Text
test_message = bytes "ripple-identity-verify"

module _ {P Q : Type 0} (lib : KeyLibrary P Q) where
  -- The identity of a private key, as `Load` and `FromMnemonic` make it.
  unfoldable pub of_private_key : P → Result (Identity P Q)
  of_private_key priv = elim (lib.id_from_public_key (lib.get_public priv)) [
    | none ↦ failed no_peer_id
    | some pid ↦ done (record { priv_key = priv; pub_key = lib.get_public priv; peer_id = pid })
  ]

  -- `Generate`, of what `GenerateEd25519Key` returned.
  unfoldable pub generate : Option (P × Q) → Result (Identity P Q)
  generate none = failed not_generated
  generate (some (priv, key)) = elim (lib.id_from_public_key key) [
    | none ↦ failed no_peer_id
    | some pid ↦ done (record { priv_key = priv; pub_key = key; peer_id = pid })
  ]

  -- `Verify`
  unfoldable pub verifies : Identity P Q → Bool
  verifies id = elim (lib.sign id.priv_key test_message) [
    | none ↦ false
    | some sig ↦ elim (lib.verify id.pub_key test_message sig) [ none ↦ false | some ok ↦ ok ]
  ]

  -- `ShortID`
  unfoldable pub short_id : Identity P Q → Text
  short_id id = let s = lib.id_string id.peer_id in if ltb 8 (length s) then take 8 s else s

  -- `Seed`
  unfoldable pub seed : Identity P Q → Result Text
  seed id = elim (lib.raw id.priv_key) [
    | none ↦ failed no_raw_key
    | some raw ↦
        if ltb (length raw) seed_size then failed short_raw_key else done (take seed_size raw)
  ]
