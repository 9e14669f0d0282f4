-- ===== src/Store/Backup.antt =====
-- go-daemon/pkg/store/store.go: `SaveToJSON` and `LoadFromJSON` over a disk that may refuse a step.
use ripple.Prelude.{
  Text, bytes, Option, none, some, List, [], ◌∷◌, ◌++◌, Bool, true, false, is_empty,
}
use ripple.Prelude.{Dict, lookup, insert, erase, member, remove, ◌≡◌, if◌then◌else◌}
use ripple.Message.{Message}
use ripple.Store.{Store, new}

-- The contents of the files, by path.
abbrev pub Disk : Type 0
Disk = Dict Text

-- The step at which the operating system refuses; a refused write may have written some of the bytes.
pub data Fault : Type 0 where
  create write sync close rename : Fault

-- The step that fails, if any, and what a failed write leaves in the file.
pub record Weather : Type 0 where
  pub fault : Option Fault
  pub partial : Text

-- `json.Marshal` and `json.Unmarshal` of the backup; a missing or null field reads as `none`.
pub record BackupJson : Type 0 where
  pub of_store : List Message → Dict Text → Text
  pub to_store : Text → Option (Option (List Message) × Option (Dict Text))

abbrev pub tmp_path : Text → Text
tmp_path path = path ++ bytes ".tmp"

-- `os.Rename`
unfoldable pub rename_file : Text → Text → Disk → Disk
rename_file from to d = elim (lookup from d) [ none ↦ d | some c ↦ insert to c (erase from d) ]

-- The system calls that `SaveToJSON` makes and that take effect.
pub data FileOp : Type 0 where
  created removed synced closed : Text → FileOp
  written renamed : Text → Text → FileOp

-- The files as the programs see them, and the paths of those that a crash may still garble.
pub record Drive : Type 0 where
  pub files : Disk
  pub unsynced : List Text

abbrev pub in_sync : Disk → Drive
in_sync d = record { files = d; unsynced = [] }

unfoldable pub apply_op : FileOp → Drive → Drive
apply_op (created p) v = record { files = insert p [] v.files; unsynced = p ∷ v.unsynced }
apply_op (written p text) v = record { files = insert p text v.files; unsynced = p ∷ v.unsynced }
apply_op (synced p) v = record v { unsynced = remove p v.unsynced }
apply_op (closed p) v = v
apply_op (removed p) v = record { files = erase p v.files; unsynced = remove p v.unsynced }
apply_op (renamed from to) v =
    let others = remove to (remove from v.unsynced) in
    record {
      files = rename_file from to v.files;
      unsynced = if member from v.unsynced then to ∷ others else others;
    }

unfoldable pub run_ops : List FileOp → Drive → Drive
run_ops [] v = v
run_ops (op ∷ ops) v = run_ops ops (apply_op op v)

-- What a crash makes of a drive: a file that is not synced may hold anything, or be gone.
-- Creations, removals and renamings are taken to survive in their order: a crash that loses the last of them is
-- one after fewer calls.
abbrev pub IsAfterCrash : Drive → Disk → Type 0
IsAfterCrash v c = (q : Text) → member q v.unsynced ≡ false → lookup q c ≡ lookup q v.files

-- The calls of `SaveToJSON` on its temporary file, up to the first that fails and the cleanup behind it, and
-- whether it returned no error.
unfoldable pub save_ops : Option Fault → Text → Text → Text → Text → List FileOp × Bool
save_ops (some create) partial path tmp text = ([], false)
save_ops (some write) partial path tmp text =
    (created tmp ∷ written tmp partial ∷ closed tmp ∷ removed tmp ∷ [], false)
save_ops (some sync) partial path tmp text =
    (created tmp ∷ written tmp text ∷ closed tmp ∷ removed tmp ∷ [], false)
save_ops (some close) partial path tmp text =
    (created tmp ∷ written tmp text ∷ synced tmp ∷ removed tmp ∷ [], false)
save_ops (some rename) partial path tmp text =
    (created tmp ∷ written tmp text ∷ synced tmp ∷ closed tmp ∷ removed tmp ∷ [], false)
save_ops none partial path tmp text =
    (created tmp ∷ written tmp text ∷ synced tmp ∷ closed tmp ∷ renamed tmp path ∷ [], true)

module _ (json : BackupJson) where
  unfoldable pub save_steps : Weather → Text → Store → List FileOp × Bool
  save_steps w path s =
      save_ops w.fault w.partial path (tmp_path path) (json.of_store s.messages s.peers)

  -- The disk after `SaveToJSON`, and whether it returned no error.
  unfoldable pub save_to_json : Weather → Text → Store → Disk → Disk × Bool
  save_to_json w path s d =
      let (ops, saved) = save_steps w path s in ((run_ops ops (in_sync d)).files, saved)

  -- `LoadFromJSON`: `none` is an error, which leaves the store alone.
  unfoldable pub load_from_json : Text → Disk → Store → Option Store
  load_from_json path d s = elim (lookup path d) [
    | none ↦ none
    | some text ↦ elim (json.to_store text) [
      | none ↦ none
      | some (ms, ps) ↦ some (record s {
        messages = elim ms [ none ↦ [] | some l ↦ l ];
        peers = elim ps [ none ↦ [] | some p ↦ p ];
      })
    ]
  ]

  -- `NewWithDB`
  unfoldable pub new_with_db : Text → Disk → Store
  new_with_db path d =
      let s = record new { db_path = path } in
      elim (load_from_json (path ++ bytes ".json") d s) [ none ↦ s | some s' ↦ s' ]

  -- `Autosave`, which is also `Close`.
  unfoldable pub autosave : Weather → Store → Disk → Disk × Bool
  autosave w s d =
      if is_empty s.db_path then (d, true) else save_to_json w (s.db_path ++ bytes ".json") s d
