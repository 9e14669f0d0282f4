-- ===== src/Identity/Tests.antt =====
-- The theorems of the identity at a concrete library, whose keys are seeds.
use ripple.Prelude.{
  ap, ap₂, Text, bytes, ◌≡◌, refl, ◌↔◌, none, some, [], ◌∷◌, ◌++◌, true, false, arith, length,
  length-append, take, drop, take-length-append, drop-length-append, ◌==◌, if◌then◌else◌,
}
use mathlib.Core.List.{reverse-append}
use ripple.Identity.{KeyLibrary, Identity, invalid_mnemonic, done, failed, generate}
use ripple.Identity.Words.{trim_space, trim_front, cut_any, cut_prefix}
use ripple.Identity.Mnemonic.{export_mnemonic, from_mnemonic, is_valid_mnemonic}
use ripple.Identity.Files.{missing, Disk, load, save, load_or_create, create}
use ripple.Identity.Laws.{
  KeyLaws, PhraseLaws, IsWhole, from_mnemonic-export, is_valid_mnemonic-from_iff, load-save,
  load_or_create-twice,
}

-- A raw key is the seed twice, a phrase the seed between two letters.
abbrev pub seeds : KeyLibrary Text Text
seeds = record {
  raw = λ p. if length p == 32 then some (p ++ p) else none;
  unmarshal = λ r. some (take 32 r);
  get_public = λ p. p;
  id_from_public_key = λ q. some q;
  id_string = λ t. t;
  sign = λ p m. some (p ++ m);
  verify = λ q m s. some true;
  public_of_seed = λ s. s;
  pem_encode = λ kind raw. length kind ∷ kind ++ raw;
  pem_decode = λ t. elim t [ [] ↦ none | n ∷ rest ↦ some (take n rest, drop n rest) ];
  new_mnemonic = λ s. some (97 ∷ s ++ (97 ∷ []));
  entropy_from_mnemonic = λ t. some (take 32 (drop 1 t));
}

raw_seed : (p raw : Text) → seeds.raw p ≡ some raw → (length p ≡ 32) × (p ++ p ≡ raw)
raw_seed p raw e = (ground arith, ground arith)

take_seed : (p xs : Text) → length p ≡ 32 → take 32 (p ++ xs) ≡ p
take_seed p xs h = rw (← h) (take-length-append p xs)

pub seeds-KeyLaws : KeyLaws seeds
seeds-KeyLaws = record {
  unmarshal_raw =
      λ p raw e. let (long, eq) = raw_seed p raw e in ap some (rw (← eq) (take_seed p p long));
  raw_long = λ p raw e.
      let (long, eq) = raw_seed p raw e in rw (← eq) (omega (arith, length-append p p, long));
  raw_split = λ p raw e.
      let (long, eq) = raw_seed p raw e in
      rw (← eq) (ap₂ (λ (x y : Text). x ++ y) (take_seed p p long) (take_seed p p long));
}

pub seeds-PhraseLaws : PhraseLaws seeds
seeds-PhraseLaws = record {
  encode = λ s. 97 ∷ s ++ (97 ∷ []);
  encodes = λ s h. refl;
  decodes = λ s h. ap some (take_seed s (97 ∷ []) h);
  first_letter = λ s h. refl;
  last_letter = λ s h. rw (reverse-append (97 ∷ s) (97 ∷ [])) refl;
}

abbrev one_seed : Text
one_seed = bytes "0123456789abcdef0123456789abcdef"

abbrev pub someone : Identity Text Text
someone = record { priv_key = one_seed; pub_key = one_seed; peer_id = one_seed }

pub someone-IsWhole : IsWhole seeds someone
someone-IsWhole = record {
  raw_key = one_seed ++ one_seed;
  written = refl;
  same_key = refl;
  same_peer = refl;
}

pub pem_seeds : (kind raw : Text) → seeds.pem_decode (seeds.pem_encode kind raw) ≡ some (kind, raw)
pem_seeds kind raw =
    ap some
      (ap₂ (λ (a b : Text). (a, b)) (take-length-append kind raw) (drop-length-append kind raw))

abbrev pub good_disk : Disk
good_disk = record { makes_dir = true; spoils = none }

from_mnemonic-export_example :
    (phrase : Text) × (export_mnemonic seeds someone ≡ done phrase)
    × (from_mnemonic seeds phrase ≡ done someone)
from_mnemonic-export_example =
    from_mnemonic-export seeds someone seeds-KeyLaws seeds-PhraseLaws someone-IsWhole

is_valid_mnemonic-from_iff_example :
    (is_valid_mnemonic seeds (bytes " short ") ≡ false)
    ↔ (from_mnemonic seeds (bytes " short ") ≡ failed invalid_mnemonic)
is_valid_mnemonic-from_iff_example = is_valid_mnemonic-from_iff seeds (bytes " short ")

load-save_example : load seeds (save seeds good_disk someone missing).0 ≡ done someone
load-save_example =
    load-save seeds good_disk someone missing seeds-KeyLaws someone-IsWhole pem_seeds
      (unfold save in refl)

load_or_create-twice_example :
    load_or_create seeds good_disk none
      (load_or_create seeds good_disk (some (one_seed, one_seed)) missing).0
    ≡ ((load_or_create seeds good_disk (some (one_seed, one_seed)) missing).0, done someone)
unfolding load_or_create load create generate save
load_or_create-twice_example =
    load_or_create-twice seeds good_disk good_disk one_seed one_seed (one_seed ++ one_seed) none
      missing someone seeds-KeyLaws pem_seeds refl refl refl

-- Spaces around a phrase are taken off, also U+00A0.
trimmed : trim_space (32 ∷ 10 ∷ 97 ∷ 32 ∷ 98 ∷ 0xc2 ∷ 0xa0 ∷ 32 ∷ []) ≡ bytes "a b"
unfolding trim_space trim_front cut_any cut_prefix
trimmed = refl
