-- ===== src/Codec/Marshal.antt =====
-- go-daemon/pkg/codec/codec.go: `Marshal`.
use ripple.Prelude.{ℕ, ◌-◌, ◌*◌, ◌%◌, Text, [], ◌∷◌, ◌++◌, none, some, ltb, length}
use ripple.Prelude.{Dict, lookup, is_empty, bit_and, bit_or, if◌then◌else◌, Bool, not}
use ripple.Prelude.{ℤ, pos, negsuc, leb}
use ripple.Message.{Message}
use ripple.Message.Kinds.{type_chat, type_file, type_sos, type_delivery_ack, type_peer_info}
use ripple.Message.Kinds.{type_key_exchange}
use ripple.Codec.Strings.{put_string}
use ripple.Codec.Varint.{put_uvarint, zigzag}

abbrev pub type_short_long_form : ℕ
type_short_long_form = 0xf

abbrev pub max_short_len : ℕ
max_short_len = 15

-- `typeToShort`
abbrev pub type_to_short : Dict ℕ
type_to_short =
    (type_chat, 0)
    ∷ (type_file, 1)
    ∷ (type_sos, 2)
    ∷ (type_delivery_ack, 3)
    ∷ (type_peer_info, 4)
    ∷ (type_key_exchange, 5)
    ∷ []

abbrev pub flag_has_nick : ℕ
flag_has_nick = 1

abbrev pub flag_has_recipient : ℕ
flag_has_recipient = 2

abbrev pub flag_has_nonce : ℕ
flag_has_nonce = 4

abbrev pub flag_has_key_id : ℕ
flag_has_key_id = 8

-- `if s != "" { flags |= flag }`
unfoldable pub set_flag : Bool → ℕ → ℕ → ℕ
set_flag present flag flags = if present then bit_or flags flag else flags

unfoldable pub bool_flags : Bool → Bool → Bool → Bool → ℕ
bool_flags nick recipient nonce key_id = set_flag key_id flag_has_key_id (
    set_flag nonce flag_has_nonce
      (set_flag recipient flag_has_recipient (set_flag nick flag_has_nick 0)))

-- The short code in the upper half of the flags byte.
unfoldable pub type_code : Text → ℕ
type_code t = elim (lookup t type_to_short) [
  | none ↦ type_short_long_form
  | some c ↦ if leb (length t) max_short_len then c else type_short_long_form
]

unfoldable pub with_code : ℕ → ℕ → ℕ
with_code code flags = bit_or (code * 16 % 256) (bit_and flags 0x0f)

-- The type in full, where it has no short code.
unfoldable pub put_type : Text → Text
put_type t = elim (lookup t type_to_short) [ none ↦ put_string t | some _ ↦ [] ]

-- `if x > 255 { x = 255 }; byte(x)`
unfoldable pub clamp_byte : ℤ → ℕ
clamp_byte (pos n) = if ltb 255 n then 255 else n
clamp_byte (negsuc n) = 255 - n % 256

abbrev pub present : Text → Bool
present s = not (is_empty s)

-- `if s != "" { buf = append(buf, putString(s)...) }`
unfoldable pub put_optional : Text → Text
put_optional s = if present s then put_string s else []

unfoldable pub flags_byte : Message → ℕ
flags_byte m =
    with_code (type_code m.kind) (
      bool_flags (present m.sender_nick) (present m.recipient) (present m.nonce) (present m.key_id))

-- What follows the payload: the timestamp, the two counters, and what encryption adds.
unfoldable pub marshal_tail : Message → Text
marshal_tail m =
    put_uvarint (zigzag m.timestamp)
    ++ (clamp_byte m.ttl ∷ clamp_byte m.hop_count ∷ (put_optional m.nonce ++ put_optional m.key_id))

-- What follows the sender, up to the payload.
unfoldable pub marshal_address : Message → Text
marshal_address m =
    put_optional m.sender_nick
    ++ (put_optional m.recipient ++ (put_optional m.payload ++ marshal_tail m))

-- `Marshal`: its error is always nil.
unfoldable pub marshal : Message → Text
marshal m =
    flags_byte m
    ∷ (put_type m.kind ++ (put_string m.id ++ (put_string m.sender ++ marshal_address m)))
