-- ===== src/Store/Files.antt =====
-- go-daemon/pkg/store/store.go: a backup is all or nothing, and is read back.
use ripple.Prelude.{Text, bytes, ◌≡◌, ◌≢◌, ◌⊎◌, inl, inr, refl, ap, none, some, []}
use ripple.Prelude.{true, arith, All, lookup, insert, erase, lookup-insert, lookup-erase}
use ripple.Prelude.{length, length-append, if◌then◌else◌, text_eq}
use ripple.Store.{Store}
use ripple.Store.Backup.{
  Disk, Fault, create, write, sync, close, rename, Weather, BackupJson, tmp_path, rename_file,
  FileOp, created, removed, synced, closed, written, renamed, Drive, in_sync, apply_op, run_ops,
  IsAfterCrash, save_ops, save_steps, save_to_json, load_from_json,
}
use ripple.Prelude.{
  ℕ, zero, suc, Option, List, ◌∷◌, ◌++◌, ◌∙◌, take, false, member, remove, member-remove,
}

tmp_path-ne : (path : Text) → path ≢ tmp_path path
tmp_path-ne path e = omega (arith, ap length e, length-append path (bytes ".tmp"))

rename_tmp :
    (path q text : Text) (d : Disk)
    → lookup q (rename_file (tmp_path path) path (insert (tmp_path path) text d)) ≡ (
        if text_eq q path
        then some text
        else if text_eq q (tmp_path path)
        then none
        else lookup q d)
unfolding rename_file
rename_tmp path q text d =
    let tmp = tmp_path path in
    let here : lookup tmp (insert tmp text d) ≡ some text =
      ground (arith, lookup-insert tmp tmp text d) in
    rw (here, rename_file)
      (ground (
        arith,
        lookup-insert path q text (erase tmp (insert tmp text d)),
        lookup-erase tmp q (insert tmp text d),
        lookup-insert tmp q text d,
      ))

-- A file that is not the temporary one sees no call on that.
apart :
    (tmp q text : Text) (d : Disk)
    → q ≢ tmp
    → (lookup q (insert tmp text d) ≡ lookup q d) × (lookup q (erase tmp d) ≡ lookup q d)
apart tmp q text d ne =
    (ground (arith, lookup-insert tmp q text d), ground (arith, lookup-erase tmp q d))

-- Two writes and a removal.
twice :
    (tmp q t u : Text) (d : Disk)
    → q ≢ tmp
    → lookup q (erase tmp (insert tmp u (insert tmp t d))) ≡ lookup q d
twice tmp q t u d ne =
    (apart tmp q [] _ ne).1 ∙ ((apart tmp q u (insert tmp t d) ne).0 ∙ (apart tmp q t d ne).0)

-- The file after the calls that a fault leaves: the new text if none failed.
saved_file :
    (f : Option Fault) (partial path q tmp text : Text) (d : Disk)
    → tmp ≡ tmp_path path
    → q ≢ tmp
    → lookup q (run_ops (save_ops f partial path tmp text).0 (in_sync d)).files ≡ (
        if text_eq q path
        then (if (save_ops f partial path tmp text).1 then some text else lookup path d)
        else lookup q d)
unfolding save_ops run_ops apply_op
saved_file (some create) partial path q tmp text d e ne = ground arith
saved_file (some write) partial path q tmp text d e ne = ground (arith, twice tmp q [] partial d ne)
saved_file (some sync) partial path q tmp text d e ne = ground (arith, twice tmp q [] text d ne)
saved_file (some close) partial path q tmp text d e ne = ground (arith, twice tmp q [] text d ne)
saved_file (some rename) partial path q tmp text d e ne = ground (arith, twice tmp q [] text d ne)
saved_file none partial path q tmp text d e ne =
    ground (arith, e, rename_tmp path q text (insert tmp [] d), (apart tmp q [] d ne).0)

-- The calls but the renaming, on one file.
IsOn : Text → FileOp → Type 0
IsOn tmp (created p) = p ≡ tmp
IsOn tmp (removed p) = p ≡ tmp
IsOn tmp (synced p) = p ≡ tmp
IsOn tmp (closed p) = p ≡ tmp
IsOn tmp (written p text) = p ≡ tmp
IsOn tmp (renamed from to) = ⊥

-- The file of the path is synced, and holds what it held or the new text.
module _ (path : Text) (old new : Option Text) where
  record IsKept (v : Drive) : Type 0 where
    synced_now : member path v.unsynced ≡ false
    holds : (lookup path v.files ≡ old) ⊎ (lookup path v.files ≡ new)

  apply_op-IsKept :
      (tmp : Text) (op : FileOp) (v : Drive)
      → path ≢ tmp
      → IsOn tmp op
      → IsKept v
      → IsKept (apply_op op v)
  unfolding IsOn apply_op member
  apply_op-IsKept tmp (created p) v ne on h = record {
    synced_now = ground (arith, on, h.synced_now);
    holds = ground (arith, on, h.holds, lookup-insert p path [] v.files);
  }
  apply_op-IsKept tmp (written p text) v ne on h = record {
    synced_now = ground (arith, on, h.synced_now);
    holds = ground (arith, on, h.holds, lookup-insert p path text v.files);
  }
  apply_op-IsKept tmp (synced p) v ne on h = record {
    synced_now = ground (arith, h.synced_now, member-remove p path v.unsynced);
    holds = h.holds;
  }
  apply_op-IsKept tmp (closed p) v ne on h = h
  apply_op-IsKept tmp (removed p) v ne on h = record {
    synced_now = ground (arith, h.synced_now, member-remove p path v.unsynced);
    holds = ground (arith, on, h.holds, lookup-erase p path v.files);
  }
  apply_op-IsKept tmp (renamed from to) v ne on h = elim on [ ]

  prefix-IsKept :
      (tmp : Text) (ops : List FileOp) (v : Drive)
      → path ≢ tmp
      → All (IsOn tmp) ops
      → IsKept v
      → (k : ℕ) → IsKept (run_ops (take k ops) v)
  unfolding run_ops
  prefix-IsKept tmp ops v ne on h zero = h
  prefix-IsKept tmp [] v ne on h (suc k) = h
  prefix-IsKept tmp (op ∷ ops) v ne on h (suc k) =
      prefix-IsKept tmp ops (apply_op op v) ne on.1 (apply_op-IsKept tmp op v ne on.0 h) k

  -- A part of some calls with one more behind them is a part of the calls, or all.
  part-IsKept :
      (ops : List FileOp) (last : FileOp) (v : Drive)
      → ((k : ℕ) → IsKept (run_ops (take k ops) v))
      → IsKept (run_ops (ops ++ (last ∷ [])) v)
      → (k : ℕ) → IsKept (run_ops (take k (ops ++ (last ∷ []))) v)
  unfolding run_ops
  part-IsKept ops last v front all zero = front 0
  part-IsKept [] last v front all (suc zero) = all
  part-IsKept [] last v front all (suc (suc k)) = all
  part-IsKept (op ∷ ops) last v front all (suc k) =
      part-IsKept ops last (apply_op op v) (λ j. front (suc j)) all k

-- At every point of the calls the file of the path is synced, and holds the old contents or the new.
saving-IsKept :
    (f : Option Fault) (partial path tmp text : Text) (d : Disk)
    → tmp ≡ tmp_path path
    → (k : ℕ)
    → IsKept path
        (lookup path d)
        (some text)
        (run_ops (take k (save_ops f partial path tmp text).0) (in_sync d))
unfolding save_ops IsOn member
saving-IsKept f partial path tmp text d e = cases f
  where
    ne : path ≢ tmp
    ne same = tmp_path-ne path (same ∙ e)

    start : IsKept path (lookup path d) (some text) (in_sync d)
    start = record { synced_now = refl; holds = inl refl }

    front : List FileOp
    front = created tmp ∷ written tmp text ∷ synced tmp ∷ closed tmp ∷ []

    renamed_file :
        IsKept path
          (lookup path d)
          (some text)
          (run_ops (front ++ (renamed tmp path ∷ [])) (in_sync d))
    renamed_file = record {
      synced_now =
          unfold run_ops apply_op member remove in
          ground (arith, member-remove path path (remove tmp (remove tmp [])));
      holds = inr (
          unfold run_ops apply_op in
          ground (arith, e, rename_tmp path path text (insert tmp [] d)));
    }

    cases :
        (f : Option Fault) (k : ℕ)
        → IsKept path
            (lookup path d)
            (some text)
            (run_ops (take k (save_ops f partial path tmp text).0) (in_sync d))
    cases (some create) k = prefix-IsKept path _ _ tmp [] _ ne tt start k
    cases (some write) k =
        prefix-IsKept path _ _ tmp _ _ ne (refl, (refl, (refl, (refl, tt)))) start k
    cases (some sync) k =
        prefix-IsKept path _ _ tmp _ _ ne (refl, (refl, (refl, (refl, tt)))) start k
    cases (some close) k =
        prefix-IsKept path _ _ tmp _ _ ne (refl, (refl, (refl, (refl, tt)))) start k
    cases (some rename) k =
        prefix-IsKept path _ _ tmp _ _ ne (refl, (refl, (refl, (refl, (refl, tt))))) start k
    cases none k =
        part-IsKept path _ _ front (renamed tmp path) _
          (prefix-IsKept path _ _ tmp front _ ne (refl, (refl, (refl, (refl, tt)))) start)
          renamed_file k

module _ (json : BackupJson) where
  -- `SaveToJSON` either reports success and the file holds the store, or reports an error and the file
  -- holds what it held; no file but it and the temporary one changes.
  pub save_to_json_atomic :
      (w : Weather) (path : Text) (s : Store) (d : Disk) (q : Text)
      → q ≢ tmp_path path
      → lookup q (save_to_json json w path s d).0 ≡ (
          if text_eq q path
          then (if (save_to_json json w path s d).1
              then some (json.of_store s.messages s.peers)
              else lookup path d)
          else lookup q d)
  unfolding save_to_json save_steps
  save_to_json_atomic w path s d q ne =
      saved_file w.fault w.partial path q (tmp_path path) _ d refl ne

  -- A crash during `SaveToJSON`, after any number of its system calls, leaves the file with the old contents or
  -- with all of the new, whatever it does to files that are not synced; no file is unsynced before. All of the
  -- calls together leave the disk that `SaveToJSON` leaves.
  pub crash_points_safe :
      (w : Weather) (path : Text) (s : Store) (d : Disk) (k : ℕ) (c : Disk)
      → IsAfterCrash (run_ops (take k (save_steps json w path s).0) (in_sync d)) c
      → ((lookup path c ≡ lookup path d)
          ⊎ (lookup path c ≡ some (json.of_store s.messages s.peers)))
        × ((run_ops (save_steps json w path s).0 (in_sync d)).files
            ≡ (save_to_json json w path s d).0)
  unfolding save_steps save_to_json
  crash_points_safe w path s d k c crash =
      let text = json.of_store s.messages s.peers in
      let kept = saving-IsKept w.fault w.partial path (tmp_path path) text d refl k in
      (ground (arith, kept.holds, crash path kept.synced_now), refl)

  -- A store that was saved without an error is what a later load restores, whatever store loads it, if
  -- `encoding/json` reads back the store's own messages and peers.
  pub load_from_json-save :
      (w : Weather) (path : Text) (s s' : Store) (d : Disk)
      → json.to_store (json.of_store s.messages s.peers) ≡ some (some s.messages, some s.peers)
      → (save_to_json json w path s d).1 ≡ true
      → load_from_json json path (save_to_json json w path s d).0 s'
        ≡ some (record s' { messages = s.messages; peers = s.peers })
  unfolding load_from_json
  load_from_json-save w path s s' d law saved =
      let held : lookup path (save_to_json json w path s d).0
          ≡ some (json.of_store s.messages s.peers) =
        ground (arith, save_to_json_atomic w path s d path (tmp_path-ne path)) in
      rw (held, load_from_json) (rw law refl)
