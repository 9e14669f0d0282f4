-- ===== src/Codec/Tests.antt =====
-- The theorems of the codec at concrete messages.
use ripple.Prelude.{◌≡◌, refl, arith, Text, bytes, []}
use ripple.Codec.Strings.{Error, ok, err}
use ripple.Codec.Lengths.{IsClean}
use ripple.Codec.Marshal.{marshal}
use ripple.Codec.Unmarshal.{unmarshal}
use ripple.Codec.RoundTrip.{HasHeader, IsEncodable, wire_view, unmarshal-marshal}
use ripple.Codec.EmptyPayload.{unmarshal-marshal_no_payload}
use ripple.Codec.Frames.{
  joined, mtu_friendly_split, IsFrame, is_binary_format, short_type_name, short_type_label,
  mtu_friendly_split_lem, marshal-is_binary,
}
use ripple.Codec.Marshal.{type_code}
use ripple.Prelude.{All, lookup, text_dec, true}
use native.Mathlib.Decide.{ℕ_discrete}
use ripple.Samples.{to_z}

IsClean-one : IsClean (bytes "a")
IsClean-one = record { filled = omega arith; unmarked = λ e. omega arith; short = omega arith }

IsClean-id : IsClean (bytes "m1")
IsClean-id = record { filled = omega arith; unmarked = λ e. omega arith; short = omega arith }

IsClean-z : IsClean (bytes "z")
IsClean-z = record { filled = omega arith; unmarked = λ e. omega arith; short = omega arith }

IsClean-text : IsClean (bytes "hi")
IsClean-text = record { filled = omega arith; unmarked = λ e. omega arith; short = omega arith }

IsClean-kind : IsClean (bytes "chat")
IsClean-kind = record { filled = omega arith; unmarked = λ e. omega arith; short = omega arith }

header_to_z : (payload : Text) → HasHeader (record to_z { payload = payload })
header_to_z payload = record {
  kind_fits = λ e. IsClean-kind;
  id_fits = IsClean-id;
  sender_fits = IsClean-one;
  nick_fits = tt;
  recipient_fits = IsClean-z;
}

IsEncodable-to_z : IsEncodable to_z
IsEncodable-to_z = record {
  header = header_to_z (bytes "hi");
  payload_fits = IsClean-text;
  nonce_fits = tt;
  key_id_fits = tt;
  timestamp_fits = omega arith;
}

unmarshal-marshal_example : unmarshal (marshal to_z) ≡ ok (wire_view to_z)
unmarshal-marshal_example = unmarshal-marshal to_z IsEncodable-to_z

unmarshal-marshal_no_payload_example :
    (e : Error) × (unmarshal (marshal (record to_z { payload = [] })) ≡ err e)
unmarshal-marshal_no_payload_example =
    unmarshal-marshal_no_payload (record to_z { payload = [] }) (header_to_z []) refl refl refl

-- 25 bytes make a frame of 20 and one of 5.
abbrev letters : Text
letters = bytes "abcdefghijklmnopqrstuvwxy"

mtu_friendly_split_lem_example :
    (joined (mtu_friendly_split letters) ≡ letters) × All IsFrame (mtu_friendly_split letters)
mtu_friendly_split_lem_example = mtu_friendly_split_lem letters (omega arith)

marshal-is_binary_example :
    (is_binary_format (marshal to_z) ≡ true) × (short_type_name (marshal to_z) ≡ bytes "chat")
unfolding short_type_label type_code lookup text_dec ℕ_discrete
marshal-is_binary_example = marshal-is_binary to_z
