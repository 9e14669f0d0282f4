-- ===== src/Codec/Frames.antt =====
-- go-daemon/pkg/codec/codec.go: frames for BLE, and telling the binary format from JSON.
use ripple.Prelude.{
  ℕ, zero, suc, ◌/◌, ◌≤◌, ◌<◌, Text, bytes, ◌≡◌, ◌≢◌, refl, sym, ap, ◌∙◌, List, [], ◌∷◌, ◌++◌,
}
use ripple.Prelude.{
  Bool, true, false, not, ◌==◌, leb, arith, All, length, take, drop, length-drop, length-take,
}
use ripple.Prelude.{
  take-append-drop, append-nil, lookup, if◌then◌else◌, bit_and, ==_iff, Bool-cases, inl, inr,
}
use ripple.Message.{Message}
use ripple.Codec.Marshal.{type_code, type_short_long_form, flags_byte, present, marshal}
use ripple.Codec.Flags.{flags-ReadsBack, type_code-lt}

abbrev pub mtu : ℕ
mtu = 20

-- The loop of `MTUFriendlySplit` at what is left of the data. The length of the data is fuel enough, since a
-- frame takes a byte at least.
unfoldable pub frames_loop : ℕ → Text → List Text
frames_loop zero left = []
frames_loop (suc fuel) [] = []
frames_loop (suc fuel) (b ∷ bs) = take mtu (b ∷ bs) ∷ frames_loop fuel (drop mtu (b ∷ bs))

unfoldable pub mtu_friendly_split : Text → List Text
mtu_friendly_split bs =
    let frames = frames_loop (length bs) bs in if leb (length bs) mtu then bs ∷ [] else frames

-- JSON starts with `{`.
unfoldable pub is_binary_format : Text → Bool
is_binary_format [] = false
is_binary_format (b ∷ bs) = not (b == b'{')

unfoldable pub short_type_label : ℕ → Text
short_type_label code =
    if code == 0
    then bytes "chat"
    else if code == 1
    then bytes "file"
    else if code == 2
    then bytes "sos"
    else if code == 3
    then bytes "ack"
    else if code == 4
    then bytes "peer"
    else if code == 5
    then bytes "keyx"
    else if code == type_short_long_form
    then bytes "long"
    else bytes "?"

unfoldable pub short_type_name : Text → Text
short_type_name [] = bytes "?"
short_type_name (b ∷ bs) = short_type_label (bit_and (b / 16) 0x0f)

-- `Size`
unfoldable pub size : Message → ℕ
size m = length (marshal m)

-- The frames put together again.
unfoldable pub joined : List Text → Text
joined [] = []
joined (f ∷ fs) = f ++ joined fs

-- A frame that fits.
abbrev pub IsFrame : Text → Type 0
IsFrame f = (0 < length f) × (length f ≤ 20)

frames_loop_lem :
    (fuel : ℕ) (bs : Text)
    → length bs ≤ fuel
    → (joined (frames_loop fuel bs) ≡ bs) × All IsFrame (frames_loop fuel bs)
unfolding frames_loop joined
frames_loop_lem zero [] h = (refl, tt)
frames_loop_lem zero (b ∷ bs) h = absurd (omega arith)
frames_loop_lem (suc fuel) [] h = (refl, tt)
frames_loop_lem (suc fuel) (b ∷ bs) h =
    let rest = frames_loop_lem fuel (drop mtu (b ∷ bs)) (omega (arith, length-drop mtu (b ∷ bs))) in
    (
      ap (λ (xs : Text). take mtu (b ∷ bs) ++ xs) rest.0 ∙ take-append-drop mtu (b ∷ bs),
      ((omega (arith, length-take mtu (b ∷ bs)), omega (arith, length-take mtu (b ∷ bs))), rest.1),
    )

-- The frames of data that is not empty hold 1 to 20 bytes each, and put together they are the data.
pub mtu_friendly_split_lem :
    (bs : Text)
    → 0 < length bs
    → (joined (mtu_friendly_split bs) ≡ bs) × All IsFrame (mtu_friendly_split bs)
unfolding mtu_friendly_split joined
mtu_friendly_split_lem bs h = elim (Bool-cases (leb (length bs) mtu)) [
  | inl short ↦ rw (short, mtu_friendly_split) (append-nil bs, ((h, ground arith), tt))
  | inr long ↦ rw (long, mtu_friendly_split) (frames_loop_lem (length bs) bs (omega arith))
]

type_code-not_7 : (t : Text) → type_code t ≢ 7
unfolding type_code lookup
type_code-not_7 t e = ground arith

-- Every message that is marshalled is told from JSON, and `ShortTypeName` reads off its type code.
pub marshal-is_binary :
    (m : Message)
    → (is_binary_format (marshal m) ≡ true)
      × (short_type_name (marshal m) ≡ short_type_label (type_code m.kind))
unfolding marshal is_binary_format short_type_name flags_byte
marshal-is_binary m =
    let back =
      (flags-ReadsBack (present m.sender_nick) (present m.recipient) (present m.nonce)
        (present m.key_id) (type_code m.kind) (type_code-lt m.kind)).code_back in
    (
      not_brace (flags_byte m) (type_code m.kind) back (type_code-not_7 m.kind),
      ap short_type_label back,
    )
  where
    not_brace :
        (flags code : ℕ) → bit_and (flags / 16) 0x0f ≡ code → code ≢ 7 → not (flags == b'{') ≡ true
    not_brace flags code e n = elim (Bool-cases (flags == 123)) [
      | inl brace ↦
          absurd (n (sym e ∙ ap (λ (f : ℕ). bit_and (f / 16) 0x0f) ((==_iff flags 123).0 brace)))
      | inr other ↦ rw other
    ]
