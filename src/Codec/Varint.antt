-- ===== src/Codec/Varint.antt =====
-- go-daemon/pkg/codec/codec.go: varints and zigzag. `binary.PutUvarint` and `binary.Uvarint` are
-- those of Go's encoding/binary; a `uint64` is a number below 2 ^ 64.
use ripple.Prelude.{ℕ, zero, suc, ◌+◌, ◌-◌, ◌*◌, ◌/◌, ◌%◌, ◌^◌, bit_xor, bit_and}
use ripple.Prelude.{Text, [], ◌∷◌, Option, none, some, ◌&&◌}
use ripple.Prelude.{ltb, ◌==◌, if◌then◌else◌, ℤ, pos, negsuc, to_u64, of_u64}

-- The groups of seven bits, lowest first; the buffer has room for `k + 1`.
unfoldable pub put_groups : ℕ → ℕ → Text
put_groups zero v = v ∷ []
put_groups (suc k) v =
    let more = put_groups k (v / 128) in if ltb v 128 then v ∷ [] else (v % 128 + 128) ∷ more

-- `putUvarint`: `binary.MaxVarintLen64` is 10.
unfoldable pub put_uvarint : ℕ → Text
put_uvarint v = put_groups 9 v

-- The loop of `binary.Uvarint` at byte `i`: the value and the number of bytes read, or `none` where
-- it returns a count that is not positive. `acc` holds the groups read so far, below 2 ^ shift, so
-- that `|` adds the next one.
unfoldable pub uvarint_loop : Text → ℕ → ℕ → ℕ → Option (ℕ × ℕ)
uvarint_loop [] i shift acc = none
uvarint_loop (b ∷ bs) i shift acc =
    let more = uvarint_loop bs (i + 1) (shift + 7) (acc + (b - 128) * 2 ^ shift) in
    if i == 10
    then none
    else if ltb b 128
    then if i == 9 && ltb 1 b then none else some (acc + b * 2 ^ shift, i + 1)
    else more

unfoldable pub uvarint : Text → Option (ℕ × ℕ)
uvarint buf = uvarint_loop buf 0 0 0

-- `v >> 63` of an `int64`: all bits are the sign bit.
abbrev pub sign_fill : ℤ → ℕ
sign_fill (pos n) = 0
sign_fill (negsuc n) = 2 ^ 64 - 1

-- `uint64((v << 1) ^ (v >> 63))`
unfoldable pub zigzag : ℤ → ℕ
unfolding to_u64
zigzag v = bit_xor (to_u64 v * 2 % 2 ^ 64) (sign_fill v)

-- `int64((v >> 1) ^ -(v & 1))`
unfoldable pub unzigzag : ℕ → ℤ
unfolding of_u64
unzigzag v = of_u64 (bit_xor (v / 2) ((2 ^ 64 - bit_and v 1) % 2 ^ 64))
