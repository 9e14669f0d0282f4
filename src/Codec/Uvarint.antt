-- ===== src/Codec/Uvarint.antt =====
-- go-daemon/pkg/codec/codec.go: reading back a varint, with whatever follows it.
use ripple.Prelude.{ℕ, zero, suc, ◌+◌, ◌*◌, ◌/◌, ◌%◌, ◌^◌, ◌≤◌, ◌<◌, ◌≡◌, refl, ap, arith, ◌∙◌}
use ripple.Prelude.{Text, ◌∷◌, ◌++◌, Option, some, length, ltb, Bool-cases, inl, inr}
use ripple.Codec.Varint.{put_groups, put_uvarint, uvarint_loop, uvarint}
use native.Mathlib.Nat.{div-add-mod, pow-suc}
use native.Mathlib.Numerals.{towards_suc}

-- One round of the reading loop, on a last byte and on a byte with the top bit set.
last_byte :
    (b i shift acc : ℕ) (rest : Text)
    → b < 128
    → i ≤ 8
    → uvarint_loop (b ∷ rest) i shift acc ≡ some (acc + b * 2 ^ shift, i + 1)
unfolding uvarint_loop
last_byte b i shift acc rest hb hi = ground arith

tenth_byte :
    (b shift acc : ℕ) (rest : Text)
    → b < 2
    → uvarint_loop (b ∷ rest) 9 shift acc ≡ some (acc + b * 2 ^ shift, 10)
unfolding uvarint_loop
tenth_byte b shift acc rest hb = ground arith

inner_byte :
    (g i shift acc : ℕ) (rest : Text)
    → g < 128
    → i ≤ 9
    → uvarint_loop ((g + 128) ∷ rest) i shift acc
      ≡ uvarint_loop rest (i + 1) (shift + 7) (acc + g * 2 ^ shift)
unfolding uvarint_loop
inner_byte g i shift acc rest hg hi = ground arith

shift_group : (v s : ℕ) → v * 2 ^ s ≡ v % 128 * 2 ^ s + v / 128 * 2 ^ (s + 7)
shift_group v s = omega (
  arith,
  ap (λ (t : ℕ). t * 2 ^ s) (div-add-mod v 128),
  ap (λ (t : ℕ). v / 128 * t) (shift_seven s),
)
  where
    shift_seven : (s : ℕ) → 2 ^ (s + 7) ≡ 128 * 2 ^ s
    shift_seven s = simp towards_suc (omega arith)

-- `i` bytes are read, and `k + 1` are still allowed: ten in all. The tenth holds one bit.
uvarint_loop-put_groups :
    (k i v shift acc : ℕ) (rest : Text)
    → i + k ≡ 9
    → v < 2 * 128 ^ k
    → uvarint_loop (put_groups k v ++ rest) i shift acc
      ≡ some (acc + v * 2 ^ shift, i + length (put_groups k v))
unfolding put_groups
uvarint_loop-put_groups zero i v shift acc rest hi hv =
    let e : i ≡ 9 = omega arith in rw e (tenth_byte v shift acc rest hv)
uvarint_loop-put_groups (suc k) i v shift acc rest hi hv = elim (Bool-cases (ltb v 128)) [
  | inl small ↦ rw small (last_byte v i shift acc rest (ground arith) (omega arith))
  | inr more ↦ rw more (
      inner_byte (v % 128) i shift acc (put_groups k (v / 128) ++ rest) (omega arith) (omega arith)
      ∙ uvarint_loop-put_groups k (i + 1) (v / 128) (shift + 7) (acc + v % 128 * 2 ^ shift) rest
          (omega arith) (omega (arith, pow-suc 128 k))
      ∙ tail)
]
  where
    tail :
        ◌≡◌ {A = Option (ℕ × ℕ)}
          (some (
            acc + v % 128 * 2 ^ shift + v / 128 * 2 ^ (shift + 7),
            i + 1 + length (put_groups k (v / 128)),
          ))
          (some (acc + v * 2 ^ shift, i + suc (length (put_groups k (v / 128)))))
    tail = ground (arith, shift_group v shift)

-- A uint64 that was written is read back, and the count is that of the bytes written.
pub uvarint-put_uvarint :
    (v : ℕ) (rest : Text)
    → v < 2 ^ 64
    → uvarint (put_uvarint v ++ rest) ≡ some (v, length (put_uvarint v))
unfolding uvarint put_uvarint
uvarint-put_uvarint v rest h = uvarint_loop-put_groups 9 0 v 0 0 rest refl h ∙ ground arith
