-- ===== src/ZkRecovery/Field.antt =====
-- packages/passkey-sdk/src/zkRecovery/field.ts: BN254 scalars and their byte encodings.
-- A `Uint8Array` is a list of numbers with `IsBytes`; a bigint is a natural number, since every
-- bigint of this file is unsigned by the type that it stands for. A throw is an `err` of `FieldError`.
pub mod Bytes
pub mod Split
use nido.Base.{
  ℕ, zero, suc, ◌+◌, ◌*◌, ◌/◌, ◌%◌, ◌^◌, ◌<◌, ◌≡◌, refl, ◌||◌, List, [], ◌∷◌, Result, ok, err,
  ◌>>=◌, ltb, leb, not, ◌==◌, if◌then◌else◌, length, slice, All,
}

abbrev pub Fr : Type 0
Fr = ℕ

abbrev pub Bytes : Type 0
Bytes = List ℕ

abbrev pub IsBytes : Bytes → Type 0
IsBytes = All (λ b. b < 256)

pub data FieldError : Type 0 where
  bad_length : ℕ → FieldError
  out_of_u64_range out_of_range non_canonical : FieldError

abbrev pub field_order_be : Bytes
field_order_be =
    0x30 ∷ 0x64 ∷ 0x4e ∷ 0x72 ∷ 0xe1 ∷ 0x31 ∷ 0xa0 ∷ 0x29 ∷ 0xb8 ∷ 0x50 ∷ 0x45 ∷ 0xb6 ∷ 0x81 ∷ 0x81
    ∷ 0x58 ∷ 0x5d ∷ 0x28 ∷ 0x33 ∷ 0xe8 ∷ 0x48 ∷ 0x79 ∷ 0xb9 ∷ 0x70 ∷ 0x91 ∷ 0x43 ∷ 0xe1 ∷ 0xf5
    ∷ 0x93 ∷ 0xf0 ∷ 0x00 ∷ 0x00 ∷ 0x01 ∷ []

-- The loop of `bytesToBigIntBE`: on a byte, `(x << 8n) | BigInt(byte)` is `x * 256 + byte`.
abbrev pub accumulate : ℕ → Bytes → ℕ
accumulate x [] = x
accumulate x (byte ∷ bytes) = accumulate (x * 256 + byte) bytes

unfoldable pub bytes_to_big_int_be : Bytes → ℕ
bytes_to_big_int_be bytes = accumulate 0 bytes

abbrev pub field_order : Fr
field_order = 0x30644e72e131a029b85045b68181585d2833e84879b9709143e1f593f0000001

abbrev pub dom_leaf : Fr
dom_leaf = 0x10d2382af89f3c1732985422f0ba530d1dd0ed3066ecce5650b78f0c4ad8274a

abbrev pub dom_bind : Fr
dom_bind = 0x14fa8513f19a07697a83cf582b40cb80bb2176f890614912553b81cdff71ec81

abbrev pub dom_null : Fr
dom_null = 0x138891cc07f52d2ec29e835298ae2120acd9573ec4a83c573885abf9710b73b2

abbrev pub dom_auth : Fr
dom_auth = 0x2886eb8be3a3ff75b86ac004fdbe5c17fd2de6ab4fd416d38683a2e0e91d9906

unfoldable pub reduce384 : Bytes → Result FieldError Fr
reduce384 okm48 =
    if length okm48 == 48
    then ok (bytes_to_big_int_be okm48 % field_order)
    else err (bad_length (length okm48))

unfoldable pub split16 : Bytes → Result FieldError (Fr × Fr)
split16 b32 =
    if length b32 == 32
    then ok (bytes_to_big_int_be (slice b32 0 16), bytes_to_big_int_be (slice b32 16 32))
    else err (bad_length (length b32))

unfoldable pub u256_from_u64 : ℕ → Result FieldError Fr
u256_from_u64 x = if ltb 0xffffffffffffffff x then err out_of_u64_range else ok x

-- The loop of `fieldToBytes32`: from the last place to the first, `v & 0xff` is written and
-- `v >>= 8` goes on. The places written stand behind the one that is written next.
abbrev pub emit_be : ℕ → ℕ → Bytes → Bytes
emit_be zero v out = out
emit_be (suc i) v out = emit_be i (v / 256) ((v % 256) ∷ out)

unfoldable pub field_to_bytes32 : Fr → Result FieldError Bytes
field_to_bytes32 x = if leb field_order x then err out_of_range else ok (emit_be 32 x [])

unfoldable pub bytes_to_field_canonical : Bytes → Result FieldError Fr
bytes_to_field_canonical b =
    if not (length b == 32)
    then err (bad_length (length b))
    else if leb field_order (bytes_to_big_int_be b)
    then err non_canonical
    else ok (bytes_to_big_int_be b)

-- The constant is what the bytes of `FIELD_ORDER_BE` spell.
field_order_lem : bytes_to_big_int_be field_order_be ≡ field_order
unfolding bytes_to_big_int_be
field_order_lem = refl
