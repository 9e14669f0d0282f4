-- ===== src/Codec/Flags.antt =====
-- go-daemon/pkg/codec/codec.go: the flags byte and the type, there and back.
use ripple.Prelude.{ℕ, ◌/◌, ◌<◌, ◌≡◌, refl, arith, Text, ◌++◌, none}
use ripple.Prelude.{Bool, true, false, ◌&&◌, ◌==◌, not, bit_and, lookup}
use ripple.Prelude.Bits.{holds_below, holds_below→eq}
use ripple.Codec.Strings.{Field, ok}
use ripple.Codec.Lengths.{IsClean, read_string-put_string}
use ripple.Codec.Marshal.{
  flag_has_nick, flag_has_recipient, flag_has_nonce, flag_has_key_id, set_flag, bool_flags,
  type_to_short, type_code, with_code, put_type,
}
use ripple.Codec.Unmarshal.{short_to_type, read_type, has_flag}

abbrev same : Bool → Bool → Bool
same true b = b
same false b = not b

-- Every half of the flags byte reads back what was put in.
abbrev reads_back : Bool → Bool → Bool → Bool → ℕ → Bool
reads_back nick recipient nonce key_id code =
    let flags = with_code code (bool_flags nick recipient nonce key_id) in
    let low = bit_and flags 0x0f in
    (bit_and (flags / 16) 0x0f == code)
    && (same (has_flag low flag_has_nick) nick
        && (same (has_flag low flag_has_recipient) recipient
            && (same (has_flag low flag_has_nonce) nonce
                && same (has_flag low flag_has_key_id) key_id)))

abbrev each : (Bool → Bool) → Bool
each p = p true && p false

each→eq : (p : Bool → Bool) (b : Bool) → each p ≡ true → p b ≡ true
each→eq p true h = ground arith
each→eq p false h = ground arith

abbrev table : Bool → Bool → Bool → Bool → Bool
table a b c d = holds_below 16 (reads_back a b c d)

all_flags : each (λ a. each (λ b. each (λ c. each (λ d. table a b c d)))) ≡ true
unfolding holds_below with_code bool_flags set_flag
all_flags = refl

flags_table : (a b c d : Bool) → table a b c d ≡ true
flags_table a b c d =
    let at_a = each→eq (λ a. each (λ b. each (λ c. each (λ d. table a b c d)))) a all_flags in
    let at_b = each→eq (λ b. each (λ c. each (λ d. table a b c d))) b at_a in
    let at_c = each→eq (λ c. each (λ d. table a b c d)) c at_b in
    each→eq (λ d. table a b c d) d at_c

-- What a reader of the flags byte relies on.
pub record ReadsBack (a b c d : Bool) (code : ℕ) : Type 0 where
  pub code_back : bit_and (with_code code (bool_flags a b c d) / 16) 0x0f ≡ code
  pub nick_back : has_flag (bit_and (with_code code (bool_flags a b c d)) 0x0f) flag_has_nick ≡ a
  pub recipient_back :
      has_flag (bit_and (with_code code (bool_flags a b c d)) 0x0f) flag_has_recipient ≡ b
  pub nonce_back : has_flag (bit_and (with_code code (bool_flags a b c d)) 0x0f) flag_has_nonce ≡ c
  pub key_id_back :
      has_flag (bit_and (with_code code (bool_flags a b c d)) 0x0f) flag_has_key_id ≡ d

same-eq : (a b : Bool) → same a b ≡ true → a ≡ b
same-eq true true h = refl
same-eq true false h = cc
same-eq false true h = cc
same-eq false false h = refl

pub flags-ReadsBack : (a b c d : Bool) (code : ℕ) → code < 16 → ReadsBack a b c d code
flags-ReadsBack a b c d code h =
    let t : reads_back a b c d code ≡ true =
      holds_below→eq 16 (reads_back a b c d) code (flags_table a b c d) h in
    record {
      code_back = ground (arith, t);
      nick_back = same-eq _ _ (ground (arith, t));
      recipient_back = same-eq _ _ (ground (arith, t));
      nonce_back = same-eq _ _ (ground (arith, t));
      key_id_back = same-eq _ _ (ground (arith, t));
    }

pub type_code-lt : (t : Text) → type_code t < 16
unfolding type_code lookup
type_code-lt t = ground arith

-- A known type is read back from its code, any other from its text.
pub read_type-put_type :
    (t rest : Text)
    → (lookup t type_to_short ≡ none → IsClean t)
    → read_type (type_code t) (put_type t ++ rest) ≡ ok (t, rest)
unfolding read_type type_code put_type short_to_type lookup
read_type-put_type t rest h = ground (arith, read_string-put_string Field.kind t rest)
