-- ===== src/Codec/RoundTrip.antt =====
-- go-daemon/pkg/codec/codec.go: `Unmarshal` after `Marshal`.
use ripple.Prelude.{ℕ, ◌≤◌, ◌<◌, ◌≡◌, refl, arith, Text, [], ◌∷◌, ◌++◌, none, length, lookup}
use ripple.Prelude.{ℤ, pos, IsInt64, length-append, drop-length-append}
use ripple.Prelude.{◌∙◌, append-nil}
use ripple.Message.{Message}
use ripple.Codec.Varint.{put_uvarint, zigzag}
use ripple.Codec.Zigzag.{zigzag-lt, unzigzag-zigzag}
use ripple.Codec.Uvarint.{uvarint-put_uvarint}
use ripple.Codec.Strings.{Field, ok, put_string}
use ripple.Codec.Lengths.{IsClean, read_string-put_string}
use ripple.Codec.Marshal.{
  type_to_short, type_code, put_type, clamp_byte, present, put_optional, flags_byte, marshal_tail,
  marshal_address, marshal,
}
use ripple.Codec.Unmarshal.{
  read_id, read_optional, read_timestamp, read_hops, unmarshal_fields, unmarshal,
}
use ripple.Codec.Flags.{flags-ReadsBack, type_code-lt, read_type-put_type}

-- A field that may be left out.
abbrev pub IsOptional : Text → Type 0
IsOptional [] = Unit {0}
IsOptional (c ∷ cs) = IsClean (c ∷ cs)

-- The fields in front of the payload can be told apart on the wire.
pub record HasHeader (m : Message) : Type 0 where
  pub kind_fits : lookup m.kind type_to_short ≡ none → IsClean m.kind
  pub id_fits : IsClean m.id
  pub sender_fits : IsClean m.sender
  pub nick_fits : IsOptional m.sender_nick
  pub recipient_fits : IsOptional m.recipient

-- The messages that the format can carry.
pub record IsEncodable (m : Message) : Type 0 where
  pub header : HasHeader m
  pub payload_fits : IsClean m.payload
  pub nonce_fits : IsOptional m.nonce
  pub key_id_fits : IsOptional m.key_id
  pub timestamp_fits : IsInt64 m.timestamp

-- What the wire keeps of a message: the counters as bytes, and no copy budget.
unfoldable pub wire_view : Message → Message
wire_view m = record m {
  ttl = pos (clamp_byte m.ttl);
  hop_count = pos (clamp_byte m.hop_count);
  spray_budget = pos 0;
  copies_made = pos 0;
}

pub read_optional-put_optional :
    (f : Field) (s rest : Text)
    → IsOptional s
    → read_optional f (present s) (put_optional s ++ rest) ≡ ok (s, rest)
unfolding read_optional put_optional
read_optional-put_optional f [] rest h = refl
read_optional-put_optional f (c ∷ cs) rest h = read_string-put_string f (c ∷ cs) rest h

read_optional-last :
    (f : Field) (s : Text)
    → IsOptional s
    → read_optional f (present s) (put_optional s) ≡ ok (s, [])
read_optional-last f s h = rw append-nil at (read_optional-put_optional f s [] h)

put_optional-put_string : (s : Text) → 0 < length s → put_optional s ≡ put_string s
unfolding put_optional
put_optional-put_string [] h = absurd (omega arith)
put_optional-put_string (c ∷ cs) h = refl

pub read_id-put_string : (s rest : Text) → IsClean s → read_id (put_string s ++ rest) ≡ ok (s, rest)
unfolding read_id
read_id-put_string [] rest h = absurd (omega (arith, h.filled))
read_id-put_string (c ∷ cs) rest h = rw (read_string-put_string Field.id (c ∷ cs) rest h, read_id)

pub read_timestamp-put :
    (v : ℤ) (rest : Text)
    → IsInt64 v
    → read_timestamp (put_uvarint (zigzag v) ++ rest) ≡ ok (v, rest)
unfolding read_timestamp
read_timestamp-put v rest h =
    rw (uvarint-put_uvarint (zigzag v) rest (zigzag-lt v h), read_timestamp)
      (rw (drop-length-append, unzigzag-zigzag v h))

length-put_string : (s : Text) → length s ≤ length (put_string s)
unfolding put_string
length-put_string [] = omega arith
length-put_string (c ∷ cs) = ground arith

pub unmarshal_cons :
    (flags : ℕ) (rest : Text)
    → 0 < length rest
    → unmarshal (flags ∷ rest) ≡ unmarshal_fields flags rest
unfolding unmarshal
unmarshal_cons flags [] h = absurd (omega arith)
unmarshal_cons flags (b ∷ rest) h = refl

pub body_filled :
    (t s rest : Text) → 0 < length s → 0 < length (put_type t ++ (put_string s ++ rest))
body_filled t s rest h = omega (
  arith,
  length-put_string s,
  length-append (put_string s) rest,
  length-append (put_type t) (put_string s ++ rest),
)

-- A message that the format can carry comes back from the bytes as its wire view: every string and
-- the timestamp unchanged, the TTL and the hop count as one byte each, the copy budget gone.
pub unmarshal-marshal : (m : Message) → IsEncodable m → unmarshal (marshal m) ≡ ok (wire_view m)
unfolding marshal marshal_address marshal_tail unmarshal_fields wire_view flags_byte read_hops
unmarshal-marshal m h =
    let back =
      flags-ReadsBack (present m.sender_nick) (present m.recipient) (present m.nonce)
        (present m.key_id) (type_code m.kind) (type_code-lt m.kind) in
    unmarshal_cons _ _ (body_filled m.kind m.id _ h.header.id_fits.filled)
    ∙ rw
        (
          back.code_back,
          back.nick_back,
          back.recipient_back,
          back.nonce_back,
          back.key_id_back,
          read_type-put_type m.kind _ h.header.kind_fits,
          read_id-put_string m.id _ h.header.id_fits,
          read_string-put_string Field.sender m.sender _ h.header.sender_fits,
          read_optional-put_optional Field.sender_nick m.sender_nick _ h.header.nick_fits,
          read_optional-put_optional Field.recipient m.recipient _ h.header.recipient_fits,
          put_optional-put_string m.payload h.payload_fits.filled,
          read_string-put_string Field.payload m.payload _ h.payload_fits,
          read_timestamp-put m.timestamp _ h.timestamp_fits,
        )
        (rw (
          read_optional-put_optional Field.nonce m.nonce _ h.nonce_fits,
          read_optional-last Field.key_id m.key_id h.key_id_fits,
        ))
