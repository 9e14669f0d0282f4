-- ===== src/Identity/Files.antt =====
-- go-daemon/pkg/identity/identity.go: the file that keeps an identity.
use ripple.Prelude.{Text, bytes, Option, none, some, Bool, text_eq, if◌then◌else◌}
use ripple.Identity.{
  KeyLibrary, Identity, IdentityError, no_identity, unreadable_file, invalid_file, bad_key,
  no_raw_key, no_directory, not_written, Result, done, failed, of_private_key, generate,
}

-- What the path holds: nothing, what cannot be read, or bytes.
pub data File : Type 0 where
  missing : File
  unreadable : File
  holds : Text → File

-- Whether the directory can be made, and what a write that fails leaves behind.
pub record Disk : Type 0 where
  pub makes_dir : Bool
  pub spoils : Option File

abbrev pub block_type : Text
block_type = bytes "RIPPLE IDENTITY"

module _ {P Q : Type 0} (lib : KeyLibrary P Q) where
  unfoldable pub load : File → Result (Identity P Q)
  load missing = failed no_identity
  load unreadable = failed unreadable_file
  load (holds text) = elim (lib.pem_decode text) [
    | none ↦ failed invalid_file
    | some (kind, raw) ↦
        let read : Result (Identity P Q) = elim (lib.unmarshal raw) [
          | none ↦ failed bad_key
          | some priv ↦ of_private_key lib priv
        ] in
        if text_eq kind block_type then read else failed invalid_file
  ]

  -- What the path holds after `Save`, and its error.
  unfoldable pub save : Disk → Identity P Q → File → File × Option IdentityError
  save disk id file = elim (lib.raw id.priv_key) [
    | none ↦ (file, some no_raw_key)
    | some raw ↦
        let written : File × Option IdentityError = elim disk.spoils [
          | none ↦ (holds (lib.pem_encode block_type raw), none)
          | some left ↦ (left, some not_written)
        ] in
        if disk.makes_dir then written else (file, some no_directory)
  ]

  -- The second half of `LoadOrCreate`, where the path holds no file.
  unfoldable pub create : Disk → Option (P × Q) → File → File × Result (Identity P Q)
  create disk made file = elim (generate lib made) [
    | failed e ↦ (file, failed e)
    | done id ↦
        let saved = save disk id file in
        elim saved.1 [ none ↦ (saved.0, done id) | some e ↦ (saved.0, failed e) ]
  ]

  unfoldable pub load_or_create : Disk → Option (P × Q) → File → File × Result (Identity P Q)
  load_or_create disk made file = elim (load file) [
    | done id ↦ (file, done id)
    | failed no_identity ↦ create disk made file
    | failed e ↦ (file, failed e)
  ]
