-- ===== src/Signing/Der/Compact.antt =====
-- signature.ts: what the compact form of a DER signature holds.
use nido.Base.{
  ℕ, zero, suc, ◌+◌, ◌-◌, ◌*◌, ◌^◌, ◌<◌, ◌≤◌, ◌≡◌, refl, ap, ◌∙◌, inl, inr, ◌⊎◌, [], ◌∷◌, ◌++◌,
  some, true, ok, ltb, leb, ltb→lt, if◌then◌else◌, Bool-cases, length, length-append, get_elem?,
  take, drop, replicate, All-append, append_assoc, arith,
}
use nido.ZkRecovery.Field.{Bytes, IsBytes, accumulate, bytes_to_big_int_be}
use nido.ZkRecovery.Field.Split.{drop-IsBytes}
use nido.Signing.Der.{
  p256_n, p256_n_half, is_byte, pad_or_trim_to32, low_s, compact_of, raw_at, read_s, der_to_compact,
}
use nido.Signing.Der.Values.{length-pad_or_trim_to32, pad_or_trim_to32-value, low_s-value}

take-append : (xs post : Bytes) → take (length xs) (xs ++ post) ≡ xs
take-append [] post = refl
take-append (x ∷ xs) post = ap (λ (t : Bytes). x ∷ t) (take-append xs post)

drop-append : (pre post : Bytes) → drop (length pre) (pre ++ post) ≡ post
drop-append [] post = refl
drop-append (x ∷ pre) post = drop-append pre post

drop-after : (pre : Bytes) (x : ℕ) (post : Bytes) → drop (suc (length pre)) (pre ++ x ∷ post) ≡ post
drop-after [] x post = refl
drop-after (y ∷ pre) x post = drop-after pre x post

get_elem?-append :
    (pre : Bytes) (x : ℕ) (post : Bytes) → get_elem? {A = ℕ} (pre ++ x ∷ post) (length pre) ≡ some x
get_elem?-append [] x post = refl
get_elem?-append (y ∷ pre) x post = get_elem?-append pre x post

is_byte-append :
    (pre : Bytes) (x : ℕ) (post : Bytes) → is_byte (pre ++ x ∷ post) (length pre) x ≡ true
unfolding is_byte
is_byte-append pre x post = rw (is_byte, get_elem?-append pre x post) (ground arith)

-- The bytes behind their length.
raw_at-append : (pre xs post : Bytes) → raw_at (pre ++ length xs ∷ (xs ++ post)) (length pre) ≡ xs
unfolding raw_at
raw_at-append pre xs post =
    let next : length pre + 1 ≡ suc (length pre) = omega arith in
    let size : length pre + 1 + length xs - (length pre + 1) ≡ length xs = omega arith in
    rw
      (
        raw_at,
        get_elem?-append pre (length xs) (xs ++ post),
        size,
        next,
        drop-after pre (length xs) (xs ++ post),
      )
      (take-append xs post)

is_byte-start :
    (len : ℕ) (r s rest : Bytes)
    → (is_byte (0x30 ∷ len ∷ 2 ∷ length r ∷ (r ++ 2 ∷ length s ∷ (s ++ rest))) 0 0x30 ≡ true)
      × (is_byte (0x30 ∷ len ∷ 2 ∷ length r ∷ (r ++ 2 ∷ length s ∷ (s ++ rest))) 2 2 ≡ true)
unfolding is_byte
is_byte-start len r s rest = (refl, refl)

-- The encoding: a sequence of two integers, and whatever follows.
abbrev pub der_of : ℕ → Bytes → Bytes → Bytes → Bytes
der_of len r s rest = 0x30 ∷ len ∷ 2 ∷ length r ∷ (r ++ 2 ∷ length s ∷ (s ++ rest))

der_to_compact-der_of :
    (len : ℕ) (r s rest : Bytes) → der_to_compact (der_of len r s rest) ≡ ok (compact_of r s)
unfolding der_to_compact read_s
der_to_compact-der_of len r s rest =
    let head : Bytes = 0x30 ∷ len ∷ 2 ∷ length r ∷ r in
    let place : 4 + length r ≡ length head = omega arith in
    let tag : is_byte (head ++ 2 ∷ length s ∷ (s ++ rest)) (4 + length r) 2 ≡ true =
      rw place (is_byte-append head 2 (length s ∷ (s ++ rest))) in
    let r_read : raw_at (der_of len r s rest) 3 ≡ r =
      raw_at-append (0x30 ∷ len ∷ 2 ∷ []) r (2 ∷ length s ∷ (s ++ rest)) in
    let place' : 4 + length r + 1 ≡ length (head ++ 2 ∷ []) =
      omega (arith, length-append r (2 ∷ [])) in
    let s_read : raw_at (head ++ 2 ∷ length s ∷ (s ++ rest)) (4 + length r + 1) ≡ s =
      rw (place', ← append_assoc r (2 ∷ []) (length s ∷ (s ++ rest)))
        (raw_at-append (head ++ 2 ∷ []) s rest) in
    rw ((is_byte-start len r s rest).0, (is_byte-start len r s rest).1, tag, r_read, s_read) refl

take-at : (n : ℕ) (xs post : Bytes) → length xs ≡ n → take n (xs ++ post) ≡ xs
take-at n xs post e = rw (← e) (take-append xs post)

drop-at : (n : ℕ) (xs post : Bytes) → length xs ≡ n → drop n (xs ++ post) ≡ post
drop-at n xs post e = rw (← e) (drop-append xs post)

pad_or_trim_to32-IsBytes : (raw : Bytes) → IsBytes raw → IsBytes (pad_or_trim_to32 raw)
unfolding pad_or_trim_to32
pad_or_trim_to32-IsBytes raw h = elim (Bool-cases (leb (length raw) 32)) [
  | inl short ↦
      rw short
        (All-append (λ b. b < 256) (replicate (32 - length raw) 0) raw (zeros (32 - length raw)) h)
  | inr long ↦ rw long (drop-IsBytes (length raw - 32) raw h)
]
  where
    zeros : (k : ℕ) → IsBytes (replicate k 0)
    zeros zero = tt
    zeros (suc k) = (omega arith, zeros k)

IsLow_lem :
    (v low : ℕ)
    → v < p256_n
    → low ≡ (if ltb p256_n_half v then p256_n - v else v)
    → ((low ≡ v) ⊎ (low + v ≡ p256_n)) × (2 * low < p256_n)
IsLow_lem v low lt e = elim (Bool-cases (ltb p256_n_half v)) [
  | inl high ↦
      let above = ltb→lt p256_n_half v high in
      let same : low ≡ p256_n - v = rw high at e in (inr (omega arith), omega arith)
  | inr other ↦
      let below : v ≤ p256_n_half = ground arith in
      let same : low ≡ v = rw other at e in (inl same, omega arith)
]

-- The compact form of a DER signature, of integers of at most 33 bytes that fit in 32, the second
-- one below the order of the curve: 64 bytes, of which the first half has the value of R, and the
-- second the value of S or its difference from the order, whichever is at most half of the order.
pub der_to_compact-low :
    (len : ℕ) (r s rest : Bytes)
    → IsBytes r
    → IsBytes s
    → length r ≤ 33
    → length s ≤ 33
    → bytes_to_big_int_be r < 2 ^ 256
    → bytes_to_big_int_be s < p256_n
    → (sig : Bytes) × (low : ℕ) × (der_to_compact (der_of len r s rest) ≡ ok sig)
      × (length sig ≡ 64)
      × (bytes_to_big_int_be (take 32 sig) ≡ bytes_to_big_int_be r)
      × (bytes_to_big_int_be (drop 32 sig) ≡ low)
      × ((low ≡ bytes_to_big_int_be s) ⊎ (low + bytes_to_big_int_be s ≡ p256_n))
      × (2 * low < p256_n)
unfolding bytes_to_big_int_be compact_of
der_to_compact-low len r s rest hr hs r_len s_len r_fits s_fits =
    let bytes = pad_or_trim_to32-IsBytes s hs in
    let value = pad_or_trim_to32-value s hs s_len (omega arith) in
    let first = length-pad_or_trim_to32 r in
    let (second, low) =
      low_s-value (pad_or_trim_to32 s) bytes (length-pad_or_trim_to32 s) (omega arith) in
    let (which, half) =
      IsLow_lem (accumulate 0 s) (accumulate 0 (low_s (pad_or_trim_to32 s))) s_fits
        (rw value at low) in
    (
      pad_or_trim_to32 r ++ low_s (pad_or_trim_to32 s),
      accumulate 0 (low_s (pad_or_trim_to32 s)),
      der_to_compact-der_of len r s rest,
      omega (arith, length-append (pad_or_trim_to32 r) (low_s (pad_or_trim_to32 s))),
      ap (accumulate 0) (take-at 32 (pad_or_trim_to32 r) (low_s (pad_or_trim_to32 s)) first)
          ∙ pad_or_trim_to32-value r hr r_len (omega arith),
      ap (accumulate 0) (drop-at 32 (pad_or_trim_to32 r) (low_s (pad_or_trim_to32 s)) first),
      which,
      half,
    )
