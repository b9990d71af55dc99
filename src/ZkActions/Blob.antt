-- ===== src/ZkActions/Blob.antt =====
-- The proof blob: `buildProofBlob` of packages/frontend/src/lib/zk/blob.ts writes it, and
-- `rawProofFromBlob` of zkRecoveryActions.ts takes the proof out of it.
use nido.Base.{
  inl, inr, refl, ap, ◌∙◌, append_assoc, ◌≢◌, ℕ, zero, suc, ◌+◌, ◌*◌, ◌/◌, ◌%◌, ◌^◌, ◌<◌, ◌≤◌, ◌≡◌,
  List, [], ◌∷◌, ◌++◌, Result, ok, err, ◌>>=◌, ◌==◌, ltb, ltb→lt, not, if◌then◌else◌, length, drop,
  Bool-cases, >>=-ok, ==_iff, get_or, length-append, arith,
}
use nido.ZkRecovery.Field.{Bytes}

pub data BlobError : Type 0 where
  bad_public_input : (place length : ℕ) → BlobError
  too_short : ℕ → BlobError
  bad_count : ℕ → BlobError

abbrev pub zk_public_input_count : ℕ
zk_public_input_count = 3

abbrev pub header_len : ℕ
header_len = 4 + zk_public_input_count * 32

-- `setUint32(0, n, false)`.
unfoldable pub uint32_be : ℕ → Bytes
uint32_be n = (n / 2 ^ 24) % 256 ∷ (n / 2 ^ 16) % 256 ∷ (n / 2 ^ 8) % 256 ∷ n % 256 ∷ []

-- `getUint32(0, false)`.
unfoldable pub get_uint32_be : Bytes → ℕ
get_uint32_be blob =
    ((get_or blob 0 0 * 256 + get_or blob 1 0) * 256 + get_or blob 2 0) * 256 + get_or blob 3 0

-- The public inputs one after the other, each of 32 bytes; the number is the place of the first.
unfoldable pub public_bytes : ℕ → List Bytes → Result BlobError Bytes
public_bytes i [] = ok []
public_bytes i (input ∷ public_inputs) =
    let rest = public_bytes (suc i) public_inputs in
    if not (length input == 32)
    then err (bad_public_input i (length input))
    else rest >>= λ bytes. ok (input ++ bytes)

unfoldable pub build_proof_blob : List Bytes → Bytes → Result BlobError Bytes
build_proof_blob public_inputs proof = public_bytes 0 public_inputs >>= λ bytes.
    ok (uint32_be (length public_inputs) ++ bytes ++ proof)

unfoldable pub raw_proof_from_blob : Bytes → Result BlobError Bytes
raw_proof_from_blob blob =
    if ltb (length blob) header_len
    then err (too_short (length blob))
    else if not (get_uint32_be blob == zk_public_input_count)
    then err (bad_count (get_uint32_be blob))
    else ok (drop header_len blob)

length-public_bytes :
    (i : ℕ) (public_inputs : List Bytes) (bytes : Bytes)
    → public_bytes i public_inputs ≡ ok bytes
    → length bytes ≡ 32 * length public_inputs
unfolding public_bytes
length-public_bytes i [] bytes e = let same : [] ≡ bytes = cc in rw (← same) refl
length-public_bytes i (input ∷ public_inputs) bytes e = elim (Bool-cases (length input == 32)) [
  | inl n ↦
      let (rest, rest_ok, whole) =
        >>=-ok (public_bytes (suc i) public_inputs) (λ bytes. ok (input ++ bytes)) (rw n at e) in
      let same : input ++ rest ≡ bytes = cc in
      rw (← same) (
        omega (
          arith,
          length-append input rest,
          (==_iff (length input) 32).0 n,
          length-public_bytes (suc i) public_inputs rest rest_ok,
        ))
  | inr n ↦
      absurd (let clash : err (bad_public_input i (length input)) ≡ ok bytes = rw n at e in cc)
]

drop-append : (n : ℕ) (xs ys : Bytes) → length xs ≡ n → drop n (xs ++ ys) ≡ ys
drop-append zero [] ys h = refl
drop-append zero (x ∷ xs) ys h = absurd (omega arith)
drop-append (suc n) [] ys h = absurd (omega arith)
drop-append (suc n) (x ∷ xs) ys h = drop-append n xs ys (omega arith)

get_uint32_be-uint32_be :
    (n : ℕ) (rest : Bytes) → n < 2 ^ 32 → get_uint32_be (uint32_be n ++ rest) ≡ n
unfolding get_uint32_be uint32_be
get_uint32_be-uint32_be n rest h = omega arith

raw_proof_ok :
    (blob : Bytes)
    → header_len ≤ length blob
    → get_uint32_be blob ≡ zk_public_input_count
    → raw_proof_from_blob blob ≡ ok (drop header_len blob)
unfolding raw_proof_from_blob
raw_proof_ok blob long count = elim (Bool-cases (ltb (length blob) header_len)) [
  | inl short ↦ absurd (let below = ltb→lt (length blob) header_len short in omega arith)
  | inr enough ↦ rw (enough, count) refl
]

raw_proof_err :
    (blob : Bytes)
    → get_uint32_be blob ≢ zk_public_input_count
    → (e : BlobError) × (raw_proof_from_blob blob ≡ err e)
unfolding raw_proof_from_blob
raw_proof_err blob other = elim (Bool-cases (ltb (length blob) header_len)) [
  | inl short ↦ (too_short (length blob), rw short refl)
  | inr long ↦ (bad_count (get_uint32_be blob), rw long (ground arith))
]

length-uint32_be : (n : ℕ) → length (uint32_be n) ≡ 4
unfolding uint32_be
length-uint32_be n = refl

-- `rawProofFromBlob` takes the proof out of every blob that `buildProofBlob` makes with the three
-- public inputs of the circuit, and refuses every blob that it makes with another number of them.
pub raw_proof_from_blob-build_proof_blob :
    (public_inputs : List Bytes) (proof blob : Bytes)
    → length public_inputs < 2 ^ 32
    → build_proof_blob public_inputs proof ≡ ok blob
    → (length public_inputs ≡ zk_public_input_count → raw_proof_from_blob blob ≡ ok proof)
      × (length public_inputs ≢ zk_public_input_count
          → (e : BlobError) × (raw_proof_from_blob blob ≡ err e))
unfolding build_proof_blob
raw_proof_from_blob-build_proof_blob public_inputs proof blob bound e =
    let (bytes, built, whole) = >>=-ok (public_bytes 0 public_inputs) _ e in
    let head = uint32_be (length public_inputs) ++ bytes in
    let same : head ++ proof ≡ blob = cc in
    let size = length-public_bytes 0 public_inputs bytes built in
    let count : get_uint32_be (head ++ proof) ≡ length public_inputs =
      rw append_assoc (get_uint32_be-uint32_be (length public_inputs) (bytes ++ proof) bound) in
    let header : length head ≡ 4 + 32 * length public_inputs = omega (
      arith,
      length-append (uint32_be (length public_inputs)) bytes,
      length-uint32_be (length public_inputs),
    ) in
    rw (← same) (
      λ three.
          raw_proof_ok (head ++ proof) (omega (arith, length-append head proof)) (cc)
          ∙ ap ok (drop-append header_len head proof (omega arith)),
      λ other. raw_proof_err (head ++ proof) (λ three. other (cc)),
    )
