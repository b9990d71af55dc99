-- ===== src/Webauthn.antt =====
-- packages/passkey-sdk/src/webauthn.ts: the public key of a registration. The base64url codec of
-- encoding.ts is left out: `parseAttestationObject` starts at the decoded bytes.
-- An offset is a number, or none for NaN, which `data[offset++]` behind the end leads to when it is
-- taken for a length. `array[i]` out of range is none, and reads as zero under `>>` and `&`.
pub mod Skip
pub mod Key
use nido.Base.{
  ℕ, zero, suc, ◌+◌, ◌-◌, ◌*◌, ◌/◌, ◌%◌, List, [], ◌∷◌, ◌++◌, Option, none, some, Bool, true, false,
  ◌&&◌, ◌||◌, not, Result, ok, err, ◌>>=◌, ◌==◌, leb, ltb, if◌then◌else◌, length, get_elem?, take,
  drop, slice, replicate,
}
use nido.ZkRecovery.Field.{Bytes}

pub data WebauthnError : Type 0 where
  no_public_key not_uncompressed not_a_map no_auth_data no_credential_data no_coordinates :
      WebauthnError
  out_of_range : WebauthnError
  bad_length_encoding bad_major_type bad_key_type bad_value_type : ℕ → WebauthnError
  out_of_fuel : WebauthnError

abbrev pub Offset : Type 0
Offset = Option ℕ

-- `a + b` where either may be NaN.
abbrev pub plus : Offset → Offset → Offset
plus (some a) (some b) = some (a + b)
plus (some a) none = none
plus none b = none

-- `data[offset]`.
abbrev pub byte_at : Bytes → Offset → Option ℕ
byte_at raw none = none
byte_at raw (some offset) = get_elem? raw offset

-- A byte under `>>` or `&`.
abbrev pub bits_of : Option ℕ → ℕ
bits_of none = 0
bits_of (some b) = b

-- `data.slice(offset, offset + len)`: an end that is NaN is zero.
abbrev pub slice_at : Bytes → Offset → Option ℕ → Bytes
slice_at raw (some offset) (some len) = slice raw offset (offset + len)
slice_at raw (some offset) none = []
slice_at raw none len = []

abbrev pub major : ℕ → ℕ
major initial = initial / 32

abbrev pub additional : ℕ → ℕ
additional initial = initial % 32

-- `getUint16` and `getUint32` of a `DataView`: an offset that is NaN is zero, and a read that goes
-- behind the end throws.
abbrev pub view_at : Offset → ℕ
view_at none = 0
view_at (some offset) = offset

abbrev pub byte_or_zero : Bytes → ℕ → ℕ
byte_or_zero raw i = bits_of (get_elem? raw i)

unfoldable pub get_uint16 : Bytes → Offset → Result WebauthnError ℕ
get_uint16 raw offset =
    let i = view_at offset in
    if ltb (length raw) (i + 2)
    then err out_of_range
    else ok (byte_or_zero raw i * 256 + byte_or_zero raw (i + 1))

unfoldable pub get_uint32 : Bytes → Offset → Result WebauthnError ℕ
get_uint32 raw offset =
    let i = view_at offset in
    if ltb (length raw) (i + 4)
    then err out_of_range
    else ok (
        ((byte_or_zero raw i * 256 + byte_or_zero raw (i + 1)) * 256 + byte_or_zero raw (i + 2))
          * 256
        + byte_or_zero raw (i + 3))

-- `readLength`: the length, which may be undefined, and the offset behind it.
unfoldable pub read_length : Bytes → ℕ → Offset → Result WebauthnError (Option ℕ × Offset)
read_length raw info offset =
    if ltb info 24
    then ok (some info, offset)
    else if info == 24
    then ok (byte_at raw offset, plus offset (some 1))
    else if info == 25
    then ok (
      some (bits_of (byte_at raw offset) * 256 + bits_of (byte_at raw (plus offset (some 1)))),
      plus offset (some 2),
    )
    else if info == 26
    then (get_uint32 raw offset >>= λ n. ok (some n, plus offset (some 4)))
    else err (bad_length_encoding info)

-- A loop of `count` rounds.
unfoldable pub repeat :
    ℕ → (Offset → Result WebauthnError Offset) → Offset → Result WebauthnError Offset
repeat zero round offset = ok offset
repeat (suc count) round offset = round offset >>= repeat count round

-- The rounds of `i < len`, none when the length is undefined.
abbrev pub rounds : Option ℕ → ℕ
rounds none = 0
rounds (some n) = n

-- The `switch` of `skipValue` on the major type, with the skip of a value inside this one.
unfoldable pub skip_item :
    (Offset → Result WebauthnError Offset) → ℕ → Option ℕ → Offset → Result WebauthnError Offset
skip_item item kind len next =
    if kind == 0 || kind == 1 || kind == 7
    then ok next
    else if kind == 2 || kind == 3
    then ok (plus next len)
    else if kind == 4
    then repeat (rounds len) item next
    else if kind == 5
    then repeat (rounds len) (λ o. item o >>= item) next
    else err (bad_major_type kind)

-- `skipValue`, with fuel for the depth of nesting.
unfoldable pub skip_value : ℕ → Bytes → Offset → Result WebauthnError Offset
skip_value zero raw offset = err out_of_fuel
skip_value (suc fuel) raw offset =
    let initial = bits_of (byte_at raw offset) in
    let item = skip_value fuel raw in
    read_length raw (additional initial) (plus offset (some 1)) >>= λ (len, next).
    skip_item item (major initial) len next
