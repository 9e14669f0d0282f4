-- ===== src/Daemon/Startup.antt =====
-- go-daemon/cmd/rippled/main.go: `main` up to the node: the backup modes, the identity, the store and the
-- forwarder.
use ripple.Prelude.{
  arith, ap, ◌∙◌, Text, bytes, ◌≡◌, Option, none, some, true, text_eq, if◌then◌else◌,
}
use ripple.Mesh.Node.{Node, new_node, with_spray_budget}
use ripple.Config.{Config}
use ripple.Identity.{KeyLibrary, Identity, IdentityError, Result, done, failed, verifies}
use ripple.Identity.Mnemonic.{export_mnemonic, from_mnemonic}
use ripple.Identity.Files.{File, Disk, load, save, load_or_create}
use ripple.Identity.Laws.{
  KeyLaws, PhraseLaws, IsWhole, from_mnemonic-export, load-save, load_or_create-loaded,
}

module _ {F : Type 0} where
  -- The node that the configuration asks for.
  unfoldable pub start_node : Config → Text → Node F
  start_node cfg id =
      if text_eq cfg.routing_mode (bytes "spray")
      then with_spray_budget cfg.spray_budget (new_node id)
      else new_node id

module _ {P Q : Type 0} (lib : KeyLibrary P Q) where
  abbrev export_of : Result (Identity P Q) → Result Text
  export_of (failed e) = failed e
  export_of (done id) = export_mnemonic lib id

  -- `-export-seed`: the file, and what is printed.
  unfoldable pub export_seed : Disk → Option (P × Q) → File → File × Result Text
  export_seed disk made file =
      let loaded = load_or_create lib disk made file in (loaded.0, export_of loaded.1)

  abbrev saved_of : Disk → File → Result (Identity P Q) → File × Option IdentityError
  saved_of disk file (failed e) = (file, some e)
  saved_of disk file (done id) = save lib disk id file

  -- `-import-seed`: the file, and the error.
  unfoldable pub import_seed : Disk → Text → File → File × Option IdentityError
  import_seed disk phrase file = saved_of disk file (from_mnemonic lib phrase)

  abbrev checked : Identity P Q → Option (Identity P Q)
  checked id = if verifies lib id then some id else none

  -- The identity that a start goes on with, if it signs and verifies.
  unfoldable pub start_identity : Disk → Option (P × Q) → File → File × Option (Identity P Q)
  start_identity disk made file =
      let loaded = load_or_create lib disk made file in
      (loaded.0, elim loaded.1 [ failed e ↦ none | done id ↦ checked id ])

  -- A phrase that one device exports from its file and another, whose disk takes the file, imports gives the
  -- other, at every later start, the identity of the first, if the keys of the first file belong together, a
  -- PEM block reads back, and the libraries do what they document.
  pub load_or_create-import_seed :
      (disk there later : Disk) (made other : Option (P × Q)) (ours theirs : File)
      (id : Identity P Q)
      → KeyLaws lib
      → PhraseLaws lib
      → IsWhole lib id
      → ((kind raw : Text) → lib.pem_decode (lib.pem_encode kind raw) ≡ some (kind, raw))
      → load lib ours ≡ done id
      → there.makes_dir ≡ true
      → there.spoils ≡ none
      → (phrase : Text) × ((export_seed disk made ours).1 ≡ done phrase)
        × (load_or_create lib later other (import_seed there phrase theirs).0
            ≡ ((import_seed there phrase theirs).0, done id))
  unfolding export_seed import_seed
  load_or_create-import_seed disk there later made other ours theirs id keys words whole pem held
        dir disk_ok =
      let (phrase, exported, back) = from_mnemonic-export lib id keys words whole in
      let restored : load lib (save lib there id theirs).0 ≡ done id =
        load-save lib there id theirs keys whole pem (saves_well dir disk_ok) in
      (
        phrase,
        ap (λ (p : File × Result (Identity P Q)). export_of p.1)
              (load_or_create-loaded lib disk made ours id held)
            ∙ exported,
        rw (back) (load_or_create-loaded lib later other (save lib there id theirs).0 id restored),
      )
    where
      saves_well :
          there.makes_dir ≡ true → there.spoils ≡ none → (save lib there id theirs).1 ≡ none
      saves_well dir ok = unfold save in ground (arith, dir, ok, whole.written)
