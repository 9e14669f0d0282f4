-- ===== src/Codec/Strings.antt =====
-- go-daemon/pkg/codec/codec.go: strings behind their lengths.
use ripple.Prelude.{ℕ, ◌+◌, ◌*◌, ◌/◌, ◌%◌, ◌^◌, Text, [], ◌∷◌, ltb, leb, ◌==◌, if◌then◌else◌}
use ripple.Prelude.{length, take, drop}

-- What a read of the wire may fail with. `at` says which field `fmt.Errorf` names.
pub data Field : Type 0 where
  kind id sender sender_nick recipient payload nonce key_id : Field

pub data Error : Type 0 where
  too_short : Error
  unexpected_eof : Error
  at : Field → Error
  unknown_type_code : ℕ → Error
  missing_id : Error
  invalid_timestamp : Error

pub data Result {ℓ} (A : Type ℓ) : Type ℓ where
  ok : A → Result A
  err : Error → Result A

infixl 5 ◌>>=◌
abbrev pub ◌>>=◌ {ℓ κ} : {A : Type ℓ} {B : Type κ} → Result A → (A → Result B) → Result B
ok a >>= f = f a
err e >>= f = err e

-- `putString`: nothing for the empty string, one length byte up to 255, else 0xFF and 16 bits of
-- the length.
unfoldable pub put_string : Text → Text
put_string [] = []
put_string (c ∷ cs) =
    let n = length (c ∷ cs) in
    if leb n 255 then n ∷ c ∷ cs else 0xff ∷ (n % 2 ^ 16 / 256) ∷ (n % 256) ∷ c ∷ cs

-- The long form, behind its 0xFF.
unfoldable pub get_long : Text → Result (Text × ℕ)
get_long [] = err unexpected_eof
get_long (hi ∷ []) = err unexpected_eof
get_long (hi ∷ lo ∷ body) =
    let n = hi * 256 + lo in
    if ltb (length body) n then err unexpected_eof else ok (take n body, 3 + n)

-- The short form, behind its length.
unfoldable pub get_short : ℕ → Text → Result (Text × ℕ)
get_short n body =
    if n == 0
    then ok ([], 1)
    else if ltb (length body) n
    then err unexpected_eof
    else ok (take n body, 1 + n)

-- `getString`: the string and the number of bytes consumed.
unfoldable pub get_string : Text → Result (Text × ℕ)
get_string [] = ok ([], 0)
get_string (b ∷ body) = if b == 0xff then get_long body else get_short b body

-- A read at the offset: the string, and the data behind it; an error is wrapped with the field.
unfoldable pub read_string : Field → Text → Result (Text × Text)
read_string f rest = elim (get_string rest) [ ok (s, n) ↦ ok (s, drop n rest) | err e ↦ err (at f) ]
