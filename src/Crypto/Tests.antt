-- ===== src/Crypto/Tests.antt =====
-- The theorems of the encryption at concrete keys and messages.
use ripple.Prelude.{
  ℕ, zero, suc, ◌+◌, Text, bytes, ◌≡◌, refl, arith, Option, none, some, List, [], ◌∷◌, All, true,
}
use ripple.Prelude.{Dict, lookup, IsByte, text_dec, inl}
use native.Mathlib.Decide.{ℕ_discrete}
use ripple.Message.{Message}
use ripple.Crypto.{Keypair, NaCl, done, failed}
use ripple.Crypto.Keys.{missing, load_or_create_keypair, load_known_keys, save_known_keys}
use ripple.Crypto.Manager.{
  Manager, new_manager, get_peer_key, get_shared_key, encrypt_message, decrypt_message,
}
use ripple.Crypto.Coherent.{IsCoherent}
use ripple.Crypto.Cache.{Call, set_key, shared_key, after_all, get_shared_key-after_all}
use ripple.Crypto.RoundTrip.{
  IsKey, SealLaws, load_or_create_keypair-twice, load_known_keys-save,
  decrypt_message-encrypt_message,
}
use ripple.Samples.{one_field, to_z}

abbrev pub copies_of : ℕ → ℕ → Text
copies_of zero b = []
copies_of (suc n) b = b ∷ copies_of n b

abbrev sum_heads : Text → Text → Text
sum_heads [] ys = []
sum_heads (x ∷ xs) [] = []
sum_heads (x ∷ xs) (y ∷ ys) = (x + y) ∷ []

abbrev untag : Text → Option Text
untag [] = none
untag (b ∷ bs) = some bs

-- A public key that is its private key, a secret that both sides compute, and a tag in front of a text.
abbrev pub toy : NaCl
toy = record {
  precompute = sum_heads;
  secretbox_seal = λ nonce key text. 0 ∷ text;
  secretbox_open = λ nonce key text. untag text;
}

pub toy-SealLaws : SealLaws toy
toy-SealLaws = record {
  opens = λ nonce key text. refl;
  seals_bytes = λ nonce key text h. (omega arith, h);
}

pub copies_of-IsByte : (n b : ℕ) → IsByte b → All IsByte (copies_of n b)
copies_of-IsByte zero b h = tt
copies_of-IsByte (suc n) b h = (h, copies_of-IsByte n b h)

abbrev key_of : ℕ → Text
key_of b = copies_of 32 b

key_of-IsKey : (b : ℕ) → IsByte b → IsKey (key_of b)
key_of-IsKey b h = record { size = refl; of_bytes = copies_of-IsByte 32 b h }

abbrev pair_of : ℕ → Keypair
pair_of b = record { public_key = key_of b; private_key = key_of b }

abbrev known_two : Dict Text
known_two = (bytes "b", key_of 2) ∷ (bytes "c", key_of 3) ∷ []

load_or_create_keypair-twice_example :
    (load_or_create_keypair
      (load_or_create_keypair missing (some (pair_of 1)) true).1
      (some (pair_of 9))
      true).0
    ≡ done (pair_of 1)
load_or_create_keypair-twice_example =
    load_or_create_keypair-twice (pair_of 1) (some (pair_of 9)) true (key_of-IsKey 1 (omega arith))
      (key_of-IsKey 1 (omega arith))

load_known_keys-save_example :
    lookup (bytes "c") (load_known_keys (save_known_keys known_two) [])
    ≡ lookup (bytes "c") known_two
load_known_keys-save_example =
    load_known_keys-save known_two (bytes "c")
      (key_of-IsKey 2 (omega arith), (key_of-IsKey 3 (omega arith), tt))

-- A key is set, used, and replaced.
abbrev calls : List Call
calls =
    set_key true (bytes "z") (key_of 2)
    ∷ shared_key (bytes "z")
    ∷ set_key true (bytes "z") (key_of 3)
    ∷ []

get_shared_key-after_all_example :
    (get_shared_key toy
      (bytes "z")
      (after_all one_field toy calls (new_manager (pair_of 1) missing))).0
    ≡ elim (get_peer_key
        (bytes "z")
        (after_all one_field toy calls (new_manager (pair_of 1) missing))) [
          | none ↦ failed ripple.Crypto.no_shared_key
          | some key ↦ done (
              sum_heads
                (after_all one_field toy calls
                  (new_manager (pair_of 1) missing)).keypair.private_key
                key)
        ]
get_shared_key-after_all_example =
    get_shared_key-after_all one_field toy calls (pair_of 1) missing (bytes "z")

-- a knows z, and z knows a.
abbrev pub manager_a : Manager
manager_a = record {
  keypair = pair_of 1;
  known_keys = (bytes "z", key_of 2) ∷ [];
  shared_cache = [];
}

abbrev pub manager_z : Manager
manager_z = record {
  keypair = pair_of 2;
  known_keys = (bytes "a", key_of 1) ∷ [];
  shared_cache = [];
}

pub IsCoherent-a : IsCoherent toy manager_a
unfolding IsCoherent lookup
IsCoherent-a id = inl refl

pub IsCoherent-z : IsCoherent toy manager_z
unfolding IsCoherent lookup
IsCoherent-z id = inl refl

decrypt_message-encrypt_message_example :
    (sealed : Message) × ((encrypt_message toy (some (copies_of 24 7)) to_z manager_a).0
      ≡ done sealed)
    × ((decrypt_message toy sealed manager_z).0 ≡ done to_z)
unfolding get_peer_key lookup text_dec ℕ_discrete
decrypt_message-encrypt_message_example =
    decrypt_message-encrypt_message toy toy-SealLaws manager_a manager_z to_z (copies_of 24 7)
      IsCoherent-a IsCoherent-z refl refl refl
      (record { size = refl; of_bytes = copies_of-IsByte 24 7 (omega arith) })
      (omega arith, (omega arith, tt)) refl refl
