-- ===== src/Identity/Laws.antt =====
-- go-daemon/pkg/identity: an identity survives its file and its phrase.
use ripple.Prelude.{
  ap, ◌≤◌, Text, ◌≡◌, refl, ◌↔◌, Option, none, some, ◌++◌, true, false, arith, length, take,
  length-take, Option-cases, inl, inr,
}
use mathlib.Core.List.{reverse}
use ripple.Identity.{
  KeyLibrary, Identity, invalid_mnemonic, Result, done, failed, seed_size, of_private_key, generate,
  seed,
}
use ripple.Identity.Words.{starts_small, trim_space-small}
use ripple.Identity.Mnemonic.{export_mnemonic, entropy_of, from_mnemonic, is_valid_mnemonic}
use ripple.Identity.Files.{File, Disk, block_type, load, save, create, load_or_create}

module _ {P Q : Type 0} (lib : KeyLibrary P Q) where
  -- The documented behaviour of the key libraries. A raw key is its seed of 32 bytes and the public key of
  -- that seed; it reads back as the key; a generated pair belongs together.
  pub record KeyLaws : Type 0 where
    pub unmarshal_raw :
        (priv : P) (raw : Text) → lib.raw priv ≡ some raw → lib.unmarshal raw ≡ some priv
    pub raw_long : (priv : P) (raw : Text) → lib.raw priv ≡ some raw → seed_size ≤ length raw
    pub raw_split :
        (priv : P) (raw : Text)
        → lib.raw priv ≡ some raw
        → take seed_size raw ++ lib.public_of_seed (take seed_size raw) ≡ raw

  -- BIP39 encodes 32 bytes in words of small letters, and decodes them.
  pub record PhraseLaws : Type 0 where
    pub encode : Text → Text
    pub encodes : (s : Text) → length s ≡ seed_size → lib.new_mnemonic s ≡ some (encode s)
    pub decodes : (s : Text) → length s ≡ seed_size → lib.entropy_from_mnemonic (encode s) ≡ some s
    pub first_letter : (s : Text) → length s ≡ seed_size → starts_small (encode s) ≡ true
    pub last_letter : (s : Text) → length s ≡ seed_size → starts_small (reverse (encode s)) ≡ true

  -- The public key and the peer ID are those of the private key, which can be written out.
  pub record IsWhole (id : Identity P Q) : Type 0 where
    pub raw_key : Text
    pub written : lib.raw id.priv_key ≡ some raw_key
    pub same_key : lib.get_public id.priv_key ≡ id.pub_key
    pub same_peer : lib.id_from_public_key id.pub_key ≡ some id.peer_id

  of_private_key-IsWhole :
      (id : Identity P Q) → IsWhole id → of_private_key lib id.priv_key ≡ done id
  unfolding of_private_key
  of_private_key-IsWhole id w =
      rw (w.same_key, of_private_key)
        (rw (w.same_peer, of_private_key)
          (ap (λ key. done (record { priv_key = id.priv_key; pub_key = key; peer_id = id.peer_id }))
            w.same_key))

  seed-IsWhole :
      (id : Identity P Q) (laws : KeyLaws) (w : IsWhole id)
      → seed lib id ≡ done (take seed_size w.raw_key)
  unfolding seed
  seed-IsWhole id laws w = ground (arith, w.written, laws.raw_long id.priv_key w.raw_key w.written)

  seed_length :
      (id : Identity P Q) (laws : KeyLaws) (w : IsWhole id)
      → length (take seed_size w.raw_key) ≡ seed_size
  seed_length id laws w =
      ground (arith, length-take seed_size w.raw_key, laws.raw_long id.priv_key w.raw_key w.written)

  entropy_of-encode :
      (s : Text) (laws : PhraseLaws)
      → length s ≡ seed_size
      → entropy_of lib (laws.encode s) ≡ some s
  unfolding entropy_of
  entropy_of-encode s laws h =
      rw
        (
          trim_space-small (laws.encode s) (laws.first_letter s h) (laws.last_letter s h),
          entropy_of,
        )
        (rw (laws.decodes s h, entropy_of) (rw (h) refl))

  -- The phrase of an identity whose keys belong together gives the same identity back, if the libraries do
  -- what they document.
  pub from_mnemonic-export :
      (id : Identity P Q)
      → KeyLaws
      → PhraseLaws
      → IsWhole id
      → (phrase : Text) × (export_mnemonic lib id ≡ done phrase)
        × (from_mnemonic lib phrase ≡ done id)
  unfolding export_mnemonic from_mnemonic
  from_mnemonic-export id keys words w =
      let s = take seed_size w.raw_key in
      let long = seed_length id keys w in
      let whole = of_private_key-IsWhole id w in
      let same = keys.raw_split id.priv_key w.raw_key w.written in
      (
        words.encode s,
        rw (seed-IsWhole id keys w, export_mnemonic)
            (rw (words.encodes s long, export_mnemonic) refl),
        rw (entropy_of-encode s words long, from_mnemonic)
            (rw (same, from_mnemonic)
              (rw (keys.unmarshal_raw id.priv_key w.raw_key w.written, from_mnemonic) whole)),
      )

  -- IsValidMnemonic refuses a phrase exactly if FromMnemonic returns ErrInvalidMnemonic.
  pub is_valid_mnemonic-from_iff :
      (phrase : Text)
      → (is_valid_mnemonic lib phrase ≡ false)
        ↔ (from_mnemonic lib phrase ≡ failed invalid_mnemonic)
  unfolding is_valid_mnemonic from_mnemonic entropy_of of_private_key
  is_valid_mnemonic-from_iff phrase = ground arith

  -- What Save wrote without an error, Load reads as the same identity, if its keys belong together, a PEM
  -- block reads back, and the libraries do what they document.
  pub load-save :
      (disk : Disk) (id : Identity P Q) (file : File)
      → KeyLaws
      → IsWhole id
      → ((kind raw : Text) → lib.pem_decode (lib.pem_encode kind raw) ≡ some (kind, raw))
      → (save lib disk id file).1 ≡ none
      → load lib (save lib disk id file).0 ≡ done id
  unfolding save load
  load-save disk id file keys w pem ok = ground (
    arith,
    w.written,
    pem block_type w.raw_key,
    keys.unmarshal_raw id.priv_key w.raw_key w.written,
    of_private_key-IsWhole id w,
  )

  pub load_or_create-loaded :
      (disk : Disk) (made : Option (P × Q)) (file : File) (id : Identity P Q)
      → load lib file ≡ done id
      → load_or_create lib disk made file ≡ (file, done id)
  unfolding load_or_create
  load_or_create-loaded disk made file id e = rw (e, load_or_create) refl

  load-create :
      (disk : Disk) (priv : P) (key : Q) (raw : Text) (file : File) (id : Identity P Q)
      → KeyLaws
      → ((kind bs : Text) → lib.pem_decode (lib.pem_encode kind bs) ≡ some (kind, bs))
      → lib.raw priv ≡ some raw
      → lib.get_public priv ≡ key
      → (create lib disk (some (priv, key)) file).1 ≡ done id
      → load lib (create lib disk (some (priv, key)) file).0 ≡ done id
  unfolding create generate
  load-create disk priv key raw file id keys pem written same ok =
      elim (Option-cases (lib.id_from_public_key key)) [
        | inl gone ↦ ground (arith, gone)
        | inr (pid, found) ↦
            let made : Identity P Q = record { priv_key = priv; pub_key = key; peer_id = pid } in
            let whole : IsWhole made = record {
              raw_key = raw;
              written = written;
              same_key = same;
              same_peer = found;
            } in
            ground (arith, found, load-save disk made file keys whole pem)
      ]

  load-created_of :
      (r : Result (Identity P Q)) (disk : Disk) (priv : P) (key : Q) (raw : Text) (file : File)
      (id : Identity P Q)
      → KeyLaws
      → ((kind bs : Text) → lib.pem_decode (lib.pem_encode kind bs) ≡ some (kind, bs))
      → lib.raw priv ≡ some raw
      → lib.get_public priv ≡ key
      → load lib file ≡ r
      → (load_or_create lib disk (some (priv, key)) file).1 ≡ done id
      → load lib (load_or_create lib disk (some (priv, key)) file).0 ≡ done id
  unfolding load_or_create
  load-created_of (done x) disk priv key raw file id keys pem written same e ok = ground (arith, e)
  load-created_of (failed err) disk priv key raw file id keys pem written same e ok =
      ground (arith, e, load-create disk priv key raw file id keys pem written same)

  -- An identity that LoadOrCreate returned is the one that every later start returns, whatever it generates,
  -- and the file stays as it is: if a generated private key has a raw form and belongs to its public key, a
  -- PEM block reads back, and the libraries do what they document.
  pub load_or_create-twice :
      (disk later : Disk) (priv : P) (key : Q) (raw : Text) (other : Option (P × Q)) (file : File)
      (id : Identity P Q)
      → KeyLaws
      → ((kind bs : Text) → lib.pem_decode (lib.pem_encode kind bs) ≡ some (kind, bs))
      → lib.raw priv ≡ some raw
      → lib.get_public priv ≡ key
      → (load_or_create lib disk (some (priv, key)) file).1 ≡ done id
      → load_or_create lib later other (load_or_create lib disk (some (priv, key)) file).0
        ≡ ((load_or_create lib disk (some (priv, key)) file).0, done id)
  load_or_create-twice disk later priv key raw other file id keys pem written same ok =
      load_or_create-loaded later other (load_or_create lib disk (some (priv, key)) file).0 id
        (load-created_of (load lib file) disk priv key raw file id keys pem written same refl ok)
