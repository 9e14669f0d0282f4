-- ===== src/Daemon/Tests.antt =====
-- The theorem of the daemon at a concrete input, and runs.
use ripple.Prelude.{ℕ, bytes, ◌≡◌, refl, [], ◌∷◌, false, text_dec, member}
use ripple.Store.{new, has_message, has_message_loop}
use ripple.Daemon.{Daemon}
use ripple.Daemon.Fields.{fields, fields_loop}
use ripple.Identity.Words.{cut_any, cut_prefix}
use ripple.Daemon.Shown.{Inbox, take_in, take_all, handle_all, IsView, handle_all-IsView}
use ripple.Prelude.{Text, none, ◌≡◌}
use ripple.Identity.{done, of_private_key}
use ripple.Identity.Files.{File, missing, load, save, load_or_create}
use ripple.Identity.Tests.{
  seeds, someone, seeds-KeyLaws, seeds-PhraseLaws, someone-IsWhole, pem_seeds, good_disk,
}
use ripple.Daemon.Startup.{export_seed, import_seed, load_or_create-import_seed}
use ripple.Samples.{world_n, to_z, alarm}

abbrev idle : Daemon ℕ
idle = record {
  world = world_n;
  store = new;
  nickname = bytes "nina";
  peer_id = bytes "n";
  shown = [];
  quit = false;
}

abbrev nothing_yet : Inbox
nothing_yet = record { ids = []; taken = [] }

-- The first message comes twice.
handle_all-IsView_example :
    IsView [] []
      (take_all (to_z ∷ alarm ∷ to_z ∷ []) nothing_yet)
      (handle_all (to_z ∷ alarm ∷ to_z ∷ []) idle)
unfolding new has_message has_message_loop member
handle_all-IsView_example =
    handle_all-IsView [] [] (to_z ∷ alarm ∷ to_z ∷ []) nothing_yet idle
      (record { known = λ k. refl; stored = refl; printed = refl })

taken_once : (take_all (to_z ∷ alarm ∷ to_z ∷ []) nothing_yet).taken ≡ alarm ∷ to_z ∷ []
unfolding take_all take_in member text_dec
taken_once = refl

words_of_a_command :
    fields (bytes " /msg  ab hello ") ≡ bytes "/msg" ∷ bytes "ab" ∷ bytes "hello" ∷ []
unfolding fields fields_loop cut_any cut_prefix
words_of_a_command = refl

abbrev our_file : File
our_file = (save seeds good_disk someone missing).0

our_file-load : load seeds our_file ≡ done someone
unfolding load save of_private_key text_dec
our_file-load = refl

load_or_create-import_seed_example :
    (phrase : Text) × ((export_seed seeds good_disk none our_file).1 ≡ done phrase)
    × (load_or_create seeds good_disk none (import_seed seeds good_disk phrase missing).0
        ≡ ((import_seed seeds good_disk phrase missing).0, done someone))
load_or_create-import_seed_example =
    load_or_create-import_seed seeds good_disk good_disk good_disk none none our_file missing
      someone seeds-KeyLaws seeds-PhraseLaws someone-IsWhole pem_seeds our_file-load refl refl
