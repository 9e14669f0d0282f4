-- ===== src/Identity/Mnemonic.antt =====
-- go-daemon/pkg/identity/mnemonic.go: an identity as a phrase, and back.
use ripple.Prelude.{Text, Option, none, some, ◌++◌, Bool, false, length, ◌==◌, if◌then◌else◌}
use ripple.Identity.{
  KeyLibrary, Identity, invalid_mnemonic, bad_key, not_encoded, Result, done, failed, seed_size,
  of_private_key, seed,
}
use ripple.Identity.Words.{trim_space}

module _ {P Q : Type 0} (lib : KeyLibrary P Q) where
  unfoldable pub export_mnemonic : Identity P Q → Result Text
  export_mnemonic id = elim (seed lib id) [
    | failed e ↦ failed e
    | done s ↦ elim (lib.new_mnemonic s) [ none ↦ failed not_encoded | some phrase ↦ done phrase ]
  ]

  -- The entropy of 32 bytes that a phrase encodes.
  unfoldable pub entropy_of : Text → Option Text
  entropy_of phrase = elim (lib.entropy_from_mnemonic (trim_space phrase)) [
    | none ↦ none
    | some entropy ↦ if length entropy == seed_size then some entropy else none
  ]

  unfoldable pub from_mnemonic : Text → Result (Identity P Q)
  from_mnemonic phrase = elim (entropy_of phrase) [
    | none ↦ failed invalid_mnemonic
    | some entropy ↦ elim (lib.unmarshal (entropy ++ lib.public_of_seed entropy)) [
      | none ↦ failed bad_key
      | some priv ↦ of_private_key lib priv
    ]
  ]

  unfoldable pub is_valid_mnemonic : Text → Bool
  is_valid_mnemonic phrase = elim (lib.entropy_from_mnemonic (trim_space phrase)) [
    | none ↦ false
    | some entropy ↦ length entropy == seed_size
  ]
