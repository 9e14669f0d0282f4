-- ===== src/Codec/Unmarshal.antt =====
-- go-daemon/pkg/codec/codec.go: `Unmarshal`. The data that `data[off:]` stands for is passed on
-- from field to field.
use ripple.Prelude.{ℕ, ◌/◌, Text, [], ◌∷◌, Option, none, some, ◌==◌, drop}
use ripple.Prelude.{is_empty, bit_and, if◌then◌else◌, Bool, not, ℤ, pos}
use ripple.Message.{Message}
use ripple.Message.Kinds.{type_chat, type_file, type_sos, type_delivery_ack, type_peer_info}
use ripple.Message.Kinds.{type_key_exchange}
use ripple.Codec.Strings.{
  Field, too_short, unexpected_eof, unknown_type_code, missing_id, invalid_timestamp, Result, ok,
  err, ◌>>=◌, read_string,
}
use ripple.Codec.Varint.{uvarint, unzigzag}
use ripple.Codec.Marshal.{
  type_short_long_form, flag_has_nick, flag_has_recipient, flag_has_nonce, flag_has_key_id,
}

-- `shortToType`
unfoldable pub short_to_type : ℕ → Option Text
short_to_type c =
    if c == 0
    then some type_chat
    else if c == 1
    then some type_file
    else if c == 2
    then some type_sos
    else if c == 3
    then some type_delivery_ack
    else if c == 4
    then some type_peer_info
    else if c == 5
    then some type_key_exchange
    else none

unfoldable pub read_type : ℕ → Text → Result (Text × Text)
read_type code rest =
    if code == type_short_long_form
    then read_string Field.kind rest
    else elim (short_to_type code) [ none ↦ err (unknown_type_code code) | some t ↦ ok (t, rest) ]

unfoldable pub read_id : Text → Result (Text × Text)
read_id rest = do
  (s, rest') ← read_string Field.id rest
  if is_empty s then err missing_id else ok (s, rest')

-- `if boolFlags&flag != 0 { … }`
unfoldable pub read_optional : Field → Bool → Text → Result (Text × Text)
read_optional f there rest = if there then read_string f rest else ok ([], rest)

abbrev pub has_flag : ℕ → ℕ → Bool
has_flag flags flag = not (bit_and flags flag == 0)

unfoldable pub read_timestamp : Text → Result (ℤ × Text)
read_timestamp rest = elim (uvarint rest) [
  | none ↦ err invalid_timestamp
  | some (ts, n) ↦ ok (unzigzag ts, drop n rest)
]

-- The two bytes of TTL and hop count.
unfoldable pub read_hops : Text → Result (ℕ × ℕ × Text)
read_hops [] = err unexpected_eof
read_hops (a ∷ []) = err unexpected_eof
read_hops (a ∷ b ∷ rest) = ok (a, b, rest)

unfoldable pub unmarshal_fields : ℕ → Text → Result Message
unmarshal_fields flags r = do
  (kind, r) ← read_type (bit_and (flags / 16) 0x0f) r
  (id, r) ← read_id r
  (sender, r) ← read_string Field.sender r
  (nick, r) ← read_optional Field.sender_nick (has_flag (bit_and flags 0x0f) flag_has_nick) r
  (recipient, r) ←
      read_optional Field.recipient (has_flag (bit_and flags 0x0f) flag_has_recipient) r
  (payload, r) ← read_string Field.payload r
  (timestamp, r) ← read_timestamp r
  (ttl, hops, r) ← read_hops r
  (nonce, r) ← read_optional Field.nonce (has_flag (bit_and flags 0x0f) flag_has_nonce) r
  (key_id, r) ← read_optional Field.key_id (has_flag (bit_and flags 0x0f) flag_has_key_id) r
  ok (record {
    id = id;
    kind = kind;
    sender = sender;
    sender_nick = nick;
    recipient = recipient;
    payload = payload;
    timestamp = timestamp;
    ttl = pos ttl;
    hop_count = pos hops;
    spray_budget = pos 0;
    copies_made = pos 0;
    nonce = nonce;
    key_id = key_id;
  })

unfoldable pub unmarshal : Text → Result Message
unmarshal [] = err too_short
unmarshal (flags ∷ []) = err too_short
unmarshal (flags ∷ b ∷ rest) = unmarshal_fields flags (b ∷ rest)
