-- ===== src/Codec/Zigzag.antt =====
-- go-daemon/pkg/codec/codec.go: `zigzag` in plain arithmetic, and its inverse.
use ripple.Prelude.{ℕ, ◌+◌, ◌*◌, ◌/◌, ◌^◌, ◌<◌, ◌≡◌, bit_and, arith, ◌∙◌}
use ripple.Prelude.{ℤ, pos, negsuc, IsInt64}
use ripple.Prelude.Bits.{bit_xor-zero, bit_xor-ones, bit_and-one}
use ripple.Codec.Varint.{zigzag, unzigzag}

-- A number that is not negative is doubled; -(n + 1) is 2 n + 1.
pub zigzag_pos : (n : ℕ) → n < 2 ^ 63 → zigzag (pos n) ≡ 2 * n
unfolding zigzag
zigzag_pos n h = bit_xor-zero _ ∙ omega arith

pub zigzag_negsuc : (n : ℕ) → n < 2 ^ 63 → zigzag (negsuc n) ≡ 2 * n + 1
unfolding zigzag
zigzag_negsuc n h = bit_xor-ones 64 _ (omega arith) ∙ omega arith

-- The code of an int64 is a uint64.
pub zigzag-lt : (v : ℤ) → IsInt64 v → zigzag v < 2 ^ 64
zigzag-lt (pos n) h = omega (arith, zigzag_pos n h)
zigzag-lt (negsuc n) h = omega (arith, zigzag_negsuc n h)

unzigzag_even : (n : ℕ) → n < 2 ^ 63 → unzigzag (2 * n) ≡ pos n
unfolding unzigzag
unzigzag_even n h =
    let parity : bit_and (2 * n) 1 ≡ 0 = bit_and-one (2 * n) ∙ omega arith in
    let half : 2 * n / 2 ≡ n = omega arith in rw (parity, half, bit_xor-zero n) (ground arith)

unzigzag_odd : (n : ℕ) → n < 2 ^ 63 → unzigzag (2 * n + 1) ≡ negsuc n
unfolding unzigzag
unzigzag_odd n h =
    let parity : bit_and (2 * n + 1) 1 ≡ 1 = bit_and-one (2 * n + 1) ∙ omega arith in
    let half : (2 * n + 1) / 2 ≡ n = omega arith in
    rw (parity, half, bit_xor-ones 64 n (omega arith)) (ground arith)

-- Decoding inverts encoding on every int64.
pub unzigzag-zigzag : (v : ℤ) → IsInt64 v → unzigzag (zigzag v) ≡ v
unzigzag-zigzag (pos n) h = rw (zigzag_pos n h) (unzigzag_even n h)
unzigzag-zigzag (negsuc n) h = rw (zigzag_negsuc n h) (unzigzag_odd n h)
