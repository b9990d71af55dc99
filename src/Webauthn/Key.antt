-- ===== src/Webauthn/Key.antt =====
-- webauthn.ts: the key in the authenticator data, and the parse of a registration.
pub mod Ends
pub mod Coordinates
use nido.Base.{
  ℕ, zero, suc, ◌+◌, ◌-◌, ◌*◌, ◌/◌, ◌%◌, List, [], ◌∷◌, ◌++◌, Option, none, some, Bool, true, false,
  ◌&&◌, ◌||◌, not, Result, ok, err, ◌>>=◌, ◌==◌, leb, ltb, if◌then◌else◌, length, get_elem?, take,
  drop, slice, replicate,
}
use nido.ZkRecovery.Field.{Bytes}
use nido.ZkRecovery.PoolSync.{bytes_equal}
use nido.Webauthn.{
  WebauthnError, no_public_key, not_uncompressed, not_a_map, no_auth_data, no_credential_data,
  no_coordinates, out_of_range, bad_key_type, bad_value_type, bad_length_encoding, Offset, plus,
  byte_at, bits_of, slice_at, major, additional, get_uint16, read_length, rounds, skip_value,
}

-- "authData" as bytes; the decoder drops a byte order mark before it.
abbrev pub auth_data_key : Bytes
auth_data_key = 97 ∷ 117 ∷ 116 ∷ 104 ∷ 68 ∷ 97 ∷ 116 ∷ 97 ∷ []

abbrev pub is_auth_data : Bytes → Bool
is_auth_data key =
    bytes_equal key auth_data_key || bytes_equal key (0xef ∷ 0xbb ∷ 0xbf ∷ auth_data_key)

-- The loop of `extractAuthDataFromCbor` with `count` entries left.
unfoldable pub find_auth_data : ℕ → ℕ → Bytes → Offset → Result WebauthnError Bytes
find_auth_data fuel zero raw offset = err no_auth_data
find_auth_data fuel (suc count) raw offset =
    let initial = bits_of (byte_at raw offset) in
    let rest = find_auth_data fuel count raw in
    if not (major initial == 3)
    then (skip_value fuel raw offset >>= λ o. skip_value fuel raw o >>= rest)
    else read_length raw (additional initial) (plus offset (some 1)) >>= λ (key_len, key_offset).
        let after = plus key_offset key_len in
        let value = bits_of (byte_at raw after) in
        if is_auth_data (slice_at raw key_offset key_len)
        then (read_length raw (additional value) (plus after (some 1)) >>= λ (val_len, val_offset).
            ok (slice_at raw val_offset val_len))
        else skip_value fuel raw after >>= rest

-- `extractAuthDataFromCbor`: the nesting is less deep than the data is long.
unfoldable pub extract_auth_data_from_cbor : Bytes → Result WebauthnError Bytes
extract_auth_data_from_cbor raw =
    let initial = bits_of (byte_at raw (some 0)) in
    if not (major initial == 5)
    then err not_a_map
    else read_length raw (additional initial) (some 1) >>= λ (map_len, offset).
        find_auth_data (length raw + 2) (rounds map_len) raw offset

-- `readLength` of the COSE key.
unfoldable pub read_short : Bytes → ℕ → Offset → Result WebauthnError (Option ℕ × Offset)
read_short raw info offset =
    if ltb info 24
    then ok (some info, offset)
    else if info == 24
    then ok (byte_at raw offset, plus offset (some 1))
    else err (bad_length_encoding info)

-- `keyVal`: a negative key `-1 - n` by its `n`; what is compared is -2 and -3.
abbrev pub key_is : ℕ → ℕ → Option ℕ → Bool
key_is n key_major none = false
key_is n key_major (some k) = key_major == 1 && k == n

abbrev pub Coordinates : Type 0
Coordinates = Option Bytes × Option Bytes

-- The value behind a key: the coordinates and the offset behind it.
unfoldable pub read_value :
    Bytes → ℕ → Option ℕ → Coordinates → Offset → Result WebauthnError (Coordinates × Offset)
read_value cose key_major key (x, y) offset =
    let initial = bits_of (byte_at cose offset) in
    let skipped = read_short cose (additional initial) (plus offset (some 1)) in
    if major initial == 2
    then (skipped >>= λ (len, next).
        let bytes = slice_at cose next len in
        ok (
          (if key_is 1 key_major key
              then (some bytes, y)
              else if key_is 2 key_major key
              then (x, some bytes)
              else (x, y)),
          plus next len,
        ))
    else if major initial == 0 || major initial == 1
    then (skipped >>= λ (len, next). ok ((x, y), next))
    else err (bad_value_type (major initial))

-- The loop of `extractP256FromCoseKey`.
unfoldable pub read_entries : ℕ → Bytes → Coordinates → Offset → Result WebauthnError Coordinates
read_entries zero cose found offset = ok found
read_entries (suc count) cose found offset =
    let initial = bits_of (byte_at cose offset) in
    if major initial == 0 || major initial == 1
    then (read_short cose (additional initial) (plus offset (some 1)) >>= λ (key, next).
        read_value cose (major initial) key found next >>= λ (found', after).
        read_entries count cose found' after)
    else err (bad_key_type (major initial))

-- `target.set(source, offset)`, which throws when it does not fit.
unfoldable pub set_at : Bytes → Bytes → ℕ → Result WebauthnError Bytes
set_at target source offset =
    if ltb (length target) (offset + length source)
    then err out_of_range
    else ok (take offset target ++ (source ++ drop (offset + length source) target))

unfoldable pub assemble : Coordinates → Result WebauthnError Bytes
assemble (none, y) = err no_coordinates
assemble (some x, none) = err no_coordinates
assemble (some x, some y) = set_at (4 ∷ replicate 64 0) x 1 >>= λ public_key. set_at public_key y 33

unfoldable pub extract_p256_from_cose_key : Bytes → Result WebauthnError Bytes
extract_p256_from_cose_key cose =
    let initial = bits_of (byte_at cose (some 0)) in
    if not (major initial == 5)
    then err not_a_map
    else read_short cose (additional initial) (some 1) >>= λ (map_len, offset).
        read_entries (rounds map_len) cose (none, none) offset >>= assemble

-- `flags & 0x40`.
abbrev pub has_credential : ℕ → Bool
has_credential flags = flags / 64 % 2 == 1

unfoldable pub extract_public_key_from_auth_data : Bytes → Result WebauthnError Bytes
extract_public_key_from_auth_data auth_data =
    if not (has_credential (bits_of (byte_at auth_data (some 32))))
    then err no_credential_data
    else get_uint16 auth_data (some 53) >>= λ cred_id_length.
        extract_p256_from_cose_key
          (slice auth_data (55 + cred_id_length) (55 + cred_id_length + 77))

-- `parseAttestationObject` of the decoded bytes.
unfoldable pub parse_attestation_object : Bytes → Result WebauthnError Bytes
parse_attestation_object raw = extract_auth_data_from_cbor raw >>= extract_public_key_from_auth_data

-- `extractPublicKey` of what `getPublicKey()` returned: the last 65 bytes.
unfoldable pub extract_public_key : Option Bytes → Result WebauthnError Bytes
extract_public_key none = err no_public_key
extract_public_key (some spki) =
    let raw_key = drop (length spki - 65) spki in
    elim (get_elem? raw_key 0) [
      | none ↦ err not_uncompressed
      | some b ↦ (if b == 4 then ok raw_key else err not_uncompressed)
    ]

-- The key of `parseRegistration`: the attestation object is read when `getPublicKey()` is no use.
unfoldable pub parse_registration : Option Bytes → Bytes → Result WebauthnError Bytes
parse_registration spki attestation_object = elim (extract_public_key spki) [
  | ok key ↦ ok key
  | err e ↦ parse_attestation_object attestation_object
]
