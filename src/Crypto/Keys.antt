-- ===== src/Crypto/Keys.antt =====
-- go-daemon/pkg/crypto/box.go: the files of the keypair and of the known keys.
use ripple.Prelude.{Text, Option, none, some, [], ◌∷◌, Bool, length, Dict, insert}
use ripple.Prelude.{hex_encode, hex_decode, if◌then◌else◌, take, ◌==◌}
use ripple.Crypto.{
  Keypair, no_keypair, unreadable_file, invalid_public_key, invalid_private_key, not_saved,
  no_random, Outcome, done, failed,
}

-- `KeypairFile`
pub record KeypairFile : Type 0 where
  pub public_hex : Text
  pub private_hex : Text

-- What a file holds: nothing, what cannot be read or parsed, or a parsed value.
pub data Stored {ℓ} (A : Type ℓ) : Type ℓ where
  missing : Stored A
  unreadable : Stored A
  holds : A → Stored A

unfoldable pub public_key_hex : Keypair → Text
public_key_hex kp = hex_encode kp.public_key

unfoldable pub private_key_hex : Keypair → Text
private_key_hex kp = hex_encode kp.private_key

-- `KeyID`
unfoldable pub key_id : Keypair → Text
key_id kp = take 8 (public_key_hex kp)

-- The file that `SaveKeypair` writes.
unfoldable pub save_keypair : Keypair → KeypairFile
save_keypair kp = record {
  public_hex = hex_encode kp.public_key;
  private_hex = hex_encode kp.private_key;
}

-- The 32 bytes that a hex string stands for.
unfoldable pub read_key : Text → Option Text
read_key text = elim (hex_decode text) [
  | none ↦ none
  | some bs ↦ if length bs == 32 then some bs else none
]

unfoldable pub load_keypair : Stored KeypairFile → Outcome Keypair
load_keypair missing = failed no_keypair
load_keypair unreadable = failed unreadable_file
load_keypair (holds file) = elim (read_key file.public_hex) [
  | none ↦ failed invalid_public_key
  | some pk ↦ elim (read_key file.private_hex) [
    | none ↦ failed invalid_private_key
    | some sk ↦ done (record { public_key = pk; private_key = sk })
  ]
]

-- `LoadOrCreateKeypair`, where `generated` is what `GenerateKeypair` returned and `saves` whether the
-- file can be written: the keypair, and what the file holds then.
unfoldable pub load_or_create_keypair :
    Stored KeypairFile → Option Keypair → Bool → Outcome Keypair × Stored KeypairFile
load_or_create_keypair missing none saves = (failed no_random, missing)
load_or_create_keypair missing (some kp) saves =
    if saves then (done kp, holds (save_keypair kp)) else (failed not_saved, missing)
load_or_create_keypair file generated saves = (load_keypair file, file)

-- The `Keys` that `saveKnownKeysLocked` writes.
unfoldable pub save_known_keys : Dict Text → Dict Text
save_known_keys [] = []
save_known_keys ((id, key) ∷ rest) = (id, hex_encode key) ∷ save_known_keys rest

-- The loop of `LoadKnownKeys` over the file's keys, in one of the orders of a Go map: an invalid key is
-- skipped.
unfoldable pub load_known_keys : Dict Text → Dict Text → Dict Text
load_known_keys [] known = known
load_known_keys ((id, text) ∷ rest) known =
    let before = load_known_keys rest known in
    elim (read_key text) [ none ↦ before | some key ↦ insert id key before ]
