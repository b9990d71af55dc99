-- ===== src/ZkRecovery/Field/Bytes.antt =====
-- field.ts: the 32-byte encoding of a field element, and its canonical parse.
use native.Mathlib.Nat.{pow-suc}
use nido.Base.{
  ℕ, zero, suc, ◌+◌, ◌*◌, ◌/◌, ◌%◌, ◌^◌, ◌<◌, ◌≡◌, refl, ap, ◌↔◌, ◌∙◌, [], ◌∷◌, ok, length, arith,
  ◌>>=◌,
}
use nido.ZkRecovery.Field.{
  Fr, Bytes, IsBytes, accumulate, bytes_to_big_int_be, emit_be, field_order, field_to_bytes32,
  bytes_to_field_canonical,
}

pub accumulate-emit_be :
    (i v x : ℕ) (out : Bytes)
    → v < 256 ^ i
    → accumulate x (emit_be i v out) ≡ accumulate (x * 256 ^ i + v) out
accumulate-emit_be zero v x out h = ap (λ (t : ℕ). accumulate t out) (omega arith)
accumulate-emit_be (suc i) v x out h =
    accumulate-emit_be i (v / 256) x ((v % 256) ∷ out) (omega (arith, pow-suc 256 i))
    ∙ ap (λ (t : ℕ). accumulate t out) (omega (arith, ap (λ (t : ℕ). x * t) (pow-suc 256 i)))

pub length-emit_be : (i v : ℕ) (out : Bytes) → length (emit_be i v out) ≡ i + length out
length-emit_be zero v out = omega arith
length-emit_be (suc i) v out = omega (arith, length-emit_be i (v / 256) ((v % 256) ∷ out))

pub emit_be-IsBytes : (i v : ℕ) (out : Bytes) → IsBytes out → IsBytes (emit_be i v out)
emit_be-IsBytes zero v out h = h
emit_be-IsBytes (suc i) v out h = emit_be-IsBytes i (v / 256) ((v % 256) ∷ out) (omega arith, h)

pub accumulate-lt : (b : Bytes) (x m : ℕ) → IsBytes b → x < m → accumulate x b < m * 256 ^ length b
accumulate-lt [] x m h lt = omega arith
accumulate-lt (c ∷ b) x m (hc, h) lt = omega (
  arith,
  accumulate-lt b (x * 256 + c) (m * 256) h (omega arith),
  ap (λ (t : ℕ). m * t) (pow-suc 256 (length b)),
)

-- Two byte strings of one length that accumulate to one number are equal, and so are the starts.
pub accumulate-injective :
    (b c : Bytes) (x y : ℕ)
    → length b ≡ length c
    → IsBytes b
    → IsBytes c
    → accumulate x b ≡ accumulate y c
    → (x ≡ y) × (b ≡ c)
accumulate-injective [] [] x y e hb hc h = (h, refl)
accumulate-injective [] (d ∷ c) x y e hb hc h = absurd (omega arith)
accumulate-injective (d ∷ b) [] x y e hb hc h = absurd (omega arith)
accumulate-injective (d ∷ b) (f ∷ c) x y e (hd, hb) (hf, hc) h =
    let (starts, rest) =
      accumulate-injective b c (x * 256 + d) (y * 256 + f) (omega arith) hb hc h in
    let same : d ≡ f = omega arith in (omega arith, cc)

-- `bytesToFieldCanonical` reads back every canonical element that `fieldToBytes32` writes.
pub bytes_to_field_canonical-field_to_bytes32 :
    (x : Fr) → x < field_order → (field_to_bytes32 x >>= bytes_to_field_canonical) ≡ ok x
unfolding field_to_bytes32 bytes_to_field_canonical bytes_to_big_int_be
bytes_to_field_canonical-field_to_bytes32 x h =
    ground (arith, accumulate-emit_be 32 x 0 [] (omega arith), length-emit_be 32 x [])

-- `fieldToBytes32` writes back every 32 bytes that `bytesToFieldCanonical` accepts: an element has
-- one encoding.
pub field_to_bytes32-bytes_to_field_canonical :
    (b : Bytes) (x : Fr)
    → IsBytes b
    → bytes_to_field_canonical b ≡ ok x
    → (field_to_bytes32 x ≡ ok b) × (x < field_order)
unfolding field_to_bytes32 bytes_to_field_canonical bytes_to_big_int_be
field_to_bytes32-bytes_to_field_canonical b x hb h =
    let len : length b ≡ 32 = ground arith in
    let value : accumulate 0 b ≡ x = ground arith in
    let below : x < field_order = ground arith in
    let written : emit_be 32 x [] ≡ b =
      (accumulate-injective (emit_be 32 x []) b 0 0 (omega (arith, length-emit_be 32 x []))
        (emit_be-IsBytes 32 x [] tt) hb
        (omega (arith, accumulate-emit_be 32 x 0 [] (omega arith)))).1 in
    (ground arith, below)

-- `bytesToFieldCanonical` accepts 32 bytes below the field order, and refuses all else: it never
-- reduces a value.
pub bytes_to_field_canonical_iff :
    (b : Bytes) (x : Fr)
    → (bytes_to_field_canonical b ≡ ok x)
      ↔ ((length b ≡ 32) × (bytes_to_big_int_be b < field_order) × (x ≡ bytes_to_big_int_be b))
unfolding bytes_to_field_canonical
bytes_to_field_canonical_iff b x = ground arith
