-- ===== src/Store/Tests.antt =====
-- The theorems of the store at concrete stores.
use ripple.Prelude.{
  ℕ, Text, bytes, suc, take, member, lookup-insert, pos, ◌≡◌, ◌≢◌, ◌⊎◌, refl, arith, ap, List, [],
  ◌∷◌, ◌++◌, Bool, true, false, some, none,
}
use ripple.Prelude.{lookup, insert, length, text_eq, text_dec, ◌||◌, contains}
use mathlib.Core.Option
use native.Mathlib.Decide.{ℕ_discrete}
use ripple.Store.{
  Store, save_message, all_messages, messages_for_contact, recent_messages, add_peer, save_peer,
  remove_peer, has_message,
}
use ripple.Store.Backup.{
  Disk, write, Weather, BackupJson, tmp_path, Drive, in_sync, apply_op, run_ops, IsAfterCrash,
  save_ops, save_steps, save_to_json, load_from_json,
}
use ripple.Store.Reads.{recent_messages-drop, save_message_reads}
use ripple.Store.Files.{save_to_json_atomic, crash_points_safe, load_from_json-save}
use ripple.Samples.{to_z, alarm}

abbrev held : Store
held = record {
  messages = to_z ∷ alarm ∷ [];
  peers = (bytes "a", bytes "Ann") ∷ [];
  db_path = bytes "db";
}

recent_messages-drop_example : recent_messages (pos 1) held ≡ some (alarm ∷ [])
recent_messages-drop_example = recent_messages-drop 1 held

-- One text for every store; it is read back as the store above.
abbrev one_store : BackupJson
one_store = record {
  of_store = λ ms ps. bytes "backup";
  to_store = λ t. some (some held.messages, some held.peers);
}

abbrev full_disk : Weather
full_disk = record { fault = some write; partial = bytes "ba" }

abbrev calm : Weather
calm = record { fault = none; partial = [] }

abbrev path : Text
path = bytes "db.json"

path-ne : path ≢ tmp_path path
path-ne e = omega (arith, ap length e)

abbrev disk : Disk
disk = (path, bytes "old") ∷ []

save_to_json_atomic_example :
    lookup path (save_to_json one_store full_disk path held disk).0 ≡ some (bytes "old")
unfolding save_to_json save_steps save_ops run_ops apply_op lookup text_dec ℕ_discrete
save_to_json_atomic_example = save_to_json_atomic one_store full_disk path held disk path path-ne

-- A power cut after the write and before the sync garbles the temporary file.
abbrev power_cut : Drive
power_cut = run_ops (take 2 (save_steps one_store calm path held).0) (in_sync disk)

abbrev garbled : Disk
garbled = insert (tmp_path path) (bytes "bac") power_cut.files

garbled-IsAfterCrash : IsAfterCrash power_cut garbled
unfolding save_steps save_ops run_ops apply_op member
garbled-IsAfterCrash q e =
    ground (arith, e, lookup-insert (tmp_path path) q (bytes "bac") power_cut.files)

crash_points_safe_example :
    ((lookup path garbled ≡ lookup path disk) ⊎ (lookup path garbled ≡ some (bytes "backup")))
    × ((run_ops (save_steps one_store calm path held).0 (in_sync disk)).files
        ≡ (save_to_json one_store calm path held disk).0)
crash_points_safe_example =
    crash_points_safe one_store calm path held disk 2 garbled garbled-IsAfterCrash

load_from_json-save_example :
    load_from_json one_store path (save_to_json one_store calm path held disk).0 ripple.Store.new
    ≡ some (record held { db_path = [] })
unfolding save_to_json save_steps save_ops ripple.Store.new
load_from_json-save_example =
    load_from_json-save one_store calm path held ripple.Store.new disk refl refl

save_message_reads_example :
    (all_messages (save_message to_z held) ≡ to_z ∷ all_messages held)
    × ((n : ℕ)
        → recent_messages (pos (suc n)) (save_message to_z held)
          ≡ Option.map (λ ms. ms ++ (to_z ∷ [])) (recent_messages (pos n) held))
    × ((id : Text)
        → has_message id (save_message to_z held)
          ≡ (text_eq (bytes "m1") id || has_message id held))
    × ((contact : Text)
        → messages_for_contact contact (save_message to_z held)
          ≡ messages_for_contact contact held
            ++ (ripple.Prelude.if◌then◌else◌
                (text_eq (bytes "a") contact || text_eq (bytes "z") contact)
                (to_z ∷ [])
                []))
    × ((save_message to_z held).peers ≡ held.peers)
save_message_reads_example = save_message_reads to_z held
