-- ===== src/Codec/EmptyPayload.antt =====
-- go-daemon/pkg/codec/codec.go: `Marshal` leaves an empty payload out, and `Unmarshal` reads one all
-- the same, from the bytes of the timestamp.
use ripple.Prelude.{ℕ, zero, suc, ◌+◌, ◌-◌, ◌*◌, ◌/◌, ◌%◌, ◌^◌, ◌≤◌, ◌<◌, ◌≡◌, refl, ap, arith}
use ripple.Prelude.{Text, [], ◌∷◌, ◌++◌, some, length, length-append, length-drop, drop}
use ripple.Prelude.{ℤ, Bool-cases, Option-cases, inl, inr, ltb, lt→ltb, ltb-le}
use ripple.Message.{Message}
use ripple.Codec.Varint.{put_groups, put_uvarint, uvarint_loop, uvarint, zigzag}
use ripple.Codec.Strings.{
  Field, Error, at, unexpected_eof, invalid_timestamp, Result, err, ◌>>=◌, get_long, get_short,
  get_string, read_string,
}
use ripple.Codec.Lengths.{read_string-put_string}
use ripple.Codec.Marshal.{
  type_code, clamp_byte, present, put_optional, flags_byte, marshal_tail, marshal_address, marshal,
}
use ripple.Codec.Unmarshal.{read_timestamp, read_hops, unmarshal_fields, unmarshal}
use ripple.Codec.Flags.{flags-ReadsBack, type_code-lt, read_type-put_type}
use ripple.Codec.RoundTrip.{
  HasHeader, read_optional-put_optional, read_id-put_string, unmarshal_cons, body_filled,
}

uvarint_loop_count :
    (bs : Text) (i shift acc v n : ℕ) → uvarint_loop bs i shift acc ≡ some (v, n) → i < n
unfolding uvarint_loop
uvarint_loop_count [] i shift acc v n h = cc
uvarint_loop_count (b ∷ bs) i shift acc v n h =
    ground (arith, uvarint_loop_count bs (i + 1) (shift + 7) (acc + (b - 128) * 2 ^ shift) v n)

uvarint_count : (bs : Text) (v n : ℕ) → uvarint bs ≡ some (v, n) → 0 < n
unfolding uvarint
uvarint_count bs v n h = uvarint_loop_count bs 0 0 0 v n h

read_hops_short : (s : Text) → length s ≤ 1 → read_hops s ≡ err unexpected_eof
unfolding read_hops
read_hops_short [] h = refl
read_hops_short (a ∷ []) h = refl
read_hops_short (a ∷ b ∷ s) h = absurd (omega arith)

-- Two bytes are too few for a timestamp and the two counters.
two_bytes_fail {ℓ} :
    {A : Type ℓ} (k : ℤ → ℕ × ℕ × Text → Result A) (r : Text)
    → length r ≤ 2
    → (e : Error) × ((read_timestamp r >>= λ x. read_hops x.1 >>= λ y. k x.0 y) ≡ err e)
unfolding read_timestamp
two_bytes_fail k r h = elim (Option-cases (uvarint r)) [
  | inl e ↦ (invalid_timestamp, rw (e, read_timestamp))
  | inr ((v, n), e) ↦
      let short : read_hops (drop n r) ≡ err unexpected_eof =
        read_hops_short _ (omega (arith, length-drop n r, uvarint_count r v n e)) in
      (unexpected_eof, rw (e, read_timestamp) (rw short))
]

length-put_groups : (k v : ℕ) → length (put_groups k v) ≤ k + 1
unfolding put_groups
length-put_groups zero v = omega arith
length-put_groups (suc k) v = ground (arith, length-put_groups k (v / 128))

-- A short form that announces more than there is.
read_cut :
    (f : Field) (n : ℕ) (body : Text)
    → n < 255
    → length body < n
    → read_string f (n ∷ body) ≡ err (at f)
unfolding read_string get_string get_short
read_cut f n body h lt = ground (arith, lt→ltb (length body) n lt)

read_cut_long :
    (f : Field) (hi lo : ℕ) (body : Text)
    → 0 < hi
    → length body < 256
    → read_string f (255 ∷ hi ∷ lo ∷ body) ≡ err (at f)
unfolding read_string get_string get_long
read_cut_long f hi lo body h lt = ground arith

-- A varint of one byte, and the two counters.
one_byte_fails {ℓ} :
    {A : Type ℓ} (k : Text → ℤ → ℕ × ℕ × Text → Result A) (v a b : ℕ)
    → v < 128
    → (e : Error) × ((read_string Field.payload (v ∷ a ∷ b ∷ []) >>= λ p.
          read_timestamp p.1 >>= λ x. read_hops x.1 >>= λ y. k p.0 x.0 y)
        ≡ err e)
unfolding read_string get_string get_short
one_byte_fails k zero a b h = two_bytes_fail (k []) (a ∷ b ∷ []) (omega arith)
one_byte_fails k (suc zero) a b h = two_bytes_fail (k (a ∷ [])) (b ∷ []) (omega arith)
one_byte_fails k (suc (suc zero)) a b h = two_bytes_fail (k (a ∷ b ∷ [])) [] (omega arith)
one_byte_fails k (suc (suc (suc v))) a b h = (
  at Field.payload,
  rw (read_cut Field.payload (suc (suc (suc v))) (a ∷ b ∷ []) (omega arith) (omega arith)),
)

put_groups_head : (k w : ℕ) → 0 < w → (hi : ℕ) × (tl : Text) × (put_groups k w ≡ hi ∷ tl) × (0 < hi)
unfolding put_groups
put_groups_head zero w h = (w, [], refl, h)
put_groups_head (suc k) w h = elim (Bool-cases (ltb w 128)) [
  | inl small ↦ (w, [], rw small, h)
  | inr more ↦ (w % 128 + 128, put_groups k (w / 128), rw more, omega arith)
]

-- Two bytes of a varint look like the length of a string that is not there.
read_mark :
    (c hi a b : ℕ) (tl : Text)
    → 128 ≤ c
    → c < 256
    → 0 < hi
    → length tl ≤ 8
    → read_string Field.payload (c ∷ ((hi ∷ tl) ++ (a ∷ b ∷ []))) ≡ err (at Field.payload)
read_mark c hi a b tl h lt hp n = elim (Bool-cases (ltb c 255)) [
  | inl short ↦
      read_cut Field.payload c _ (ground arith)
        (omega (arith, length-append (hi ∷ tl) (a ∷ b ∷ [])))
  | inr mark ↦ let e : c ≡ 255 = ground arith in rw e (long tl n)
]
  where
    long :
        (tl : Text)
        → length tl ≤ 8
        → read_string Field.payload (255 ∷ hi ∷ (tl ++ (a ∷ b ∷ []))) ≡ err (at Field.payload)
    long [] n = read_cut_long Field.payload hi a (b ∷ []) hp (omega arith)
    long (lo ∷ tl) n =
        read_cut_long Field.payload hi lo (tl ++ (a ∷ b ∷ [])) hp
          (omega (arith, length-append tl (a ∷ b ∷ [])))

-- Whatever the timestamp and the counters are, reading a payload in front of them fails.
missing_payload_fails {ℓ} :
    {A : Type ℓ} (k : Text → ℤ → ℕ × ℕ × Text → Result A) (v a b : ℕ)
    → (e : Error) × ((read_string Field.payload (put_uvarint v ++ (a ∷ b ∷ [])) >>= λ p.
          read_timestamp p.1 >>= λ x. read_hops x.1 >>= λ y. k p.0 x.0 y)
        ≡ err e)
unfolding put_uvarint
missing_payload_fails k v a b = elim (Bool-cases (ltb v 128)) [
  | inl small ↦
      let e : put_groups 9 v ≡ v ∷ [] = unfold put_groups in rw small in
      rw e (one_byte_fails k v a b (ground arith))
  | inr more ↦
      let (hi, tl, e, hp) = put_groups_head 8 (v / 128) (omega (arith, ltb-le v 128 more)) in
      let f : put_groups 9 v ≡ (v % 128 + 128) ∷ hi ∷ tl =
        unfold put_groups in rw more (ap (◌∷◌ (v % 128 + 128)) e) in
      (
        at Field.payload,
        rw (
          f,
          read_mark (v % 128 + 128) hi a b tl (omega arith) (omega arith) hp
              (omega (arith, ap length e, length-put_groups 8 (v / 128))),
        ),
      )
]

empty_optional : {s : Text} → s ≡ [] → put_optional s ≡ []
unfolding put_optional
empty_optional e = rw e

-- A message with an empty payload and no encryption fields, whose other strings the format can carry,
-- is never read back: `Unmarshal` fails on what `Marshal` wrote, whatever the timestamp and the counters are.
pub unmarshal-marshal_no_payload :
    (m : Message)
    → HasHeader m
    → m.payload ≡ []
    → m.nonce ≡ []
    → m.key_id ≡ []
    → (e : Error) × (unmarshal (marshal m) ≡ err e)
unfolding marshal marshal_address marshal_tail unmarshal_fields flags_byte
unmarshal-marshal_no_payload m h p n k =
    let back =
      flags-ReadsBack (present m.sender_nick) (present m.recipient) (present m.nonce)
        (present m.key_id) (type_code m.kind) (type_code-lt m.kind) in
    rw
      (
        unmarshal_cons _ _ (body_filled m.kind m.id _ h.id_fits.filled),
        back.code_back,
        back.nick_back,
        back.recipient_back,
        read_type-put_type m.kind _ h.kind_fits,
        read_id-put_string m.id _ h.id_fits,
        read_string-put_string Field.sender m.sender _ h.sender_fits,
        read_optional-put_optional Field.sender_nick m.sender_nick _ h.nick_fits,
        read_optional-put_optional Field.recipient m.recipient _ h.recipient_fits,
        empty_optional p,
        empty_optional n,
        empty_optional k,
      )
      (missing_payload_fails _ (zigzag m.timestamp) (clamp_byte m.ttl) (clamp_byte m.hop_count))
