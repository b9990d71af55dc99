-- ===== src/Signing/Der/Values.antt =====
-- signature.ts: the values of the padded integers, and of the lower of S and its difference.
use nido.Base.{
  ℕ, zero, suc, ◌+◌, ◌-◌, ◌*◌, ◌^◌, ◌<◌, ◌≤◌, ◌≡◌, refl, ap, ◌∙◌, inl, inr, [], ◌∷◌, ◌++◌, false,
  ltb, leb, leb→le, if◌then◌else◌, Bool-cases, length, length-append, length-replicate, drop,
  replicate, arith,
}
use nido.Base.Hex.{padded_hex, value-padded_hex, length-padded_hex}
use nido.ZkRecovery.Field.{Bytes, IsBytes, accumulate}
use native.Mathlib.Nat.{pow-suc}
use nido.ZkRecovery.Field.Split.{take_all, length-drop_add}
use nido.Signing.Pairs.{accumulate-hex_pairs, length-hex_pairs, value-bytes_to_hex}
use nido.Signing.Der.{
  p256_n, p256_n_half, pad_or_trim_to32, buf_to_big_int, difference_to_buf32, low_s,
}

buf_to_big_int_lem : (b : Bytes) → IsBytes b → buf_to_big_int b ≡ accumulate 0 b
unfolding buf_to_big_int
buf_to_big_int_lem b h = value-bytes_to_hex 0 b h

accumulate-append : (x : ℕ) (b c : Bytes) → accumulate x (b ++ c) ≡ accumulate (accumulate x b) c
accumulate-append x [] c = refl
accumulate-append x (y ∷ b) c = accumulate-append (x * 256 + y) b c

accumulate-zeros : (k : ℕ) → accumulate 0 (replicate k 0) ≡ 0
accumulate-zeros zero = refl
accumulate-zeros (suc k) = accumulate-zeros k

accumulate-ge : (b : Bytes) (x : ℕ) → x * 256 ^ length b ≤ accumulate x b
accumulate-ge [] x = omega arith
accumulate-ge (c ∷ b) x =
    omega (arith, accumulate-ge b (x * 256 + c), ap (λ (t : ℕ). x * t) (pow-suc 256 (length b)))

leb-false : (a b : ℕ) → leb a b ≡ false → b < a
leb-false a b h = ground arith

pub length-pad_or_trim_to32 : (raw : Bytes) → length (pad_or_trim_to32 raw) ≡ 32
unfolding pad_or_trim_to32
length-pad_or_trim_to32 raw = elim (Bool-cases (leb (length raw) 32)) [
  | inl short ↦
      let le = leb→le (length raw) 32 short in
      rw short (
        omega (
          arith,
          length-append (replicate (32 - length raw) 0) raw,
          length-replicate {A = ℕ} (32 - length raw) 0,
        ))
  | inr long ↦
      let lt = leb-false (length raw) 32 long in
      rw long (omega (arith, length-drop_add (length raw - 32) raw (omega arith)))
]

-- An integer of DER keeps its value: it has at most one byte before 32, and that is zero when the
-- value fits.
pub pad_or_trim_to32-value :
    (raw : Bytes)
    → IsBytes raw
    → length raw ≤ 33
    → accumulate 0 raw < 256 ^ 32
    → accumulate 0 (pad_or_trim_to32 raw) ≡ accumulate 0 raw
unfolding pad_or_trim_to32
pad_or_trim_to32-value raw h small fits = elim (Bool-cases (leb (length raw) 32)) [
  | inl short ↦ rw short (
      accumulate-append 0 (replicate (32 - length raw) 0) raw
      ∙ ap (λ (t : ℕ). accumulate t raw) (accumulate-zeros (32 - length raw)))
  | inr long ↦ rw long (trimmed raw (ground arith) fits)
]
  where
    trimmed :
        (b : Bytes)
        → length b ≡ 33
        → accumulate 0 b < 256 ^ 32
        → accumulate 0 (drop (length b - 32) b) ≡ accumulate 0 b
    trimmed [] len lt = absurd (omega arith)
    trimmed (zero ∷ b) len lt = rw len refl
    trimmed (suc x ∷ b) len lt =
        let tail : length b ≡ 32 = omega arith in
        let high = rw tail at (accumulate-ge b (0 * 256 + suc x)) in
        absurd (omega (arith, lt, high))

-- The bytes of a difference that is not negative.
pub difference :
    (n v : ℕ)
    → v < n
    → n < 256 ^ 32
    → (length (difference_to_buf32 n v) ≡ 32) × (accumulate 0 (difference_to_buf32 n v) ≡ n - v)
unfolding difference_to_buf32
difference n v lt fits = elim (Bool-cases (leb v n)) [
  | inr above ↦ absurd (let below = leb-false v n above in omega arith)
  | inl le ↦
      let digits : length (padded_hex 64 (n - v)) ≡ 64 =
        length-padded_hex 63 (n - v) (omega arith) in
      rw (le, take_all 64 (padded_hex 64 (n - v)) digits)
        (
          length-hex_pairs 32 (padded_hex 64 (n - v)) digits,
          accumulate-hex_pairs 32 0 (padded_hex 64 (n - v)) digits ∙ value-padded_hex 64 (n - v),
        )
]

pub low_s-value :
    (s : Bytes)
    → IsBytes s
    → length s ≡ 32
    → accumulate 0 s < p256_n
    → (length (low_s s) ≡ 32)
      × (accumulate 0 (low_s s)
          ≡ (if ltb p256_n_half (accumulate 0 s) then p256_n - accumulate 0 s else accumulate 0 s))
unfolding low_s
low_s-value s h len lt =
    rw (buf_to_big_int_lem s h) (elim (Bool-cases (ltb p256_n_half (accumulate 0 s))) [
      | inr low ↦ rw low (len, refl)
      | inl high ↦ rw high (difference p256_n (accumulate 0 s) lt (omega arith))
    ])
