-- ===== src/Codec/Lengths.antt =====
-- go-daemon/pkg/codec/codec.go: reading back what `putString` wrote, with whatever follows it.
use ripple.Prelude.{ℕ, suc, ◌+◌, ◌*◌, ◌^◌, ◌<◌, ◌≡◌, ◌≢◌, arith}
use ripple.Prelude.{Text, [], ◌∷◌, ◌++◌, length, ltb, leb, ◌==◌, Bool-cases, inl, inr}
use ripple.Prelude.{length-append, take-length-append, drop-length-append, false, le-ltb}
use ripple.Codec.Strings.{Field, ok, put_string, get_long, get_short, get_string, read_string}

-- A string that its length prefix can tell: not empty, not of 255 bytes, which reads as the mark
-- of the long form, and of a length below 2^16.
pub record IsClean (s : Text) : Type 0 where
  pub filled : 0 < length s
  pub unmarked : length s ≢ 255
  pub short : length s < 2 ^ 16

get_short-append :
    (s rest : Text) → 0 < length s → get_short (length s) (s ++ rest) ≡ ok (s, suc (length s))
unfolding get_short
get_short-append s rest h =
    let enough : ltb (length (s ++ rest)) (length s) ≡ false =
      le-ltb _ _ (omega (arith, length-append s rest)) in
    rw (enough, take-length-append) (ground arith)

get_long-append :
    (hi lo : ℕ) (s rest : Text)
    → hi * 256 + lo ≡ length s
    → get_long (hi ∷ lo ∷ (s ++ rest)) ≡ ok (s, suc (suc (suc (length s))))
unfolding get_long
get_long-append hi lo s rest e =
    let enough : ltb (length (s ++ rest)) (length s) ≡ false =
      le-ltb _ _ (omega (arith, length-append s rest)) in
    rw (e, enough, take-length-append) (ground arith)

get_string_short :
    (s rest : Text)
    → 0 < length s
    → length s < 255
    → get_string (length s ∷ (s ++ rest)) ≡ ok (s, suc (length s))
unfolding get_string
get_string_short s rest h k =
    let plain : (length s == 255) ≡ false = ground arith in rw plain (get_short-append s rest h)

-- What was written as the short form, and as the long form.
read_short :
    (f : Field) (s rest : Text)
    → 0 < length s
    → length s < 255
    → read_string f (length s ∷ (s ++ rest)) ≡ ok (s, rest)
unfolding read_string
read_short f s rest h k = rw (get_string_short s rest h k, read_string) (rw drop-length-append)

read_long :
    (f : Field) (hi lo : ℕ) (s rest : Text)
    → hi * 256 + lo ≡ length s
    → read_string f (0xff ∷ hi ∷ lo ∷ (s ++ rest)) ≡ ok (s, rest)
unfolding read_string get_string
read_long f hi lo s rest e =
    rw (get_long-append hi lo s rest e, read_string, get_string) (rw drop-length-append)

-- A clean string that was written is read back, and the rest is left.
pub read_string-put_string :
    (f : Field) (s rest : Text) → IsClean s → read_string f (put_string s ++ rest) ≡ ok (s, rest)
unfolding put_string
read_string-put_string f [] rest h = absurd (omega (arith, h.filled))
read_string-put_string f (c ∷ cs) rest h = elim (Bool-cases (leb (length (c ∷ cs)) 255)) [
  | inl short ↦ rw short (read_short f (c ∷ cs) rest h.filled (ground (arith, h.unmarked)))
  | inr long ↦ rw long (read_long f _ _ (c ∷ cs) rest (omega (arith, h.short)))
]
