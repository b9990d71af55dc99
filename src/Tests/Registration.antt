-- ===== src/Tests/Registration.antt =====
-- The parse of a registration.
use nido.Base.{none, ◌≡◌, refl, [], ◌∷◌, ◌++◌, some, ok, err, ◌≢◌, replicate}
use nido.ZkRecovery.Field.{Bytes}
use nido.ZkRecovery.PoolSync.{bytes_equal}
use nido.Webauthn.{
  no_public_key, out_of_fuel, get_uint16, read_length, repeat, skip_item, skip_value,
}
use nido.Webauthn.Key.{
  find_auth_data, extract_auth_data_from_cbor, read_short, read_value, read_entries, set_at,
  assemble, extract_p256_from_cose_key, extract_public_key_from_auth_data, parse_attestation_object,
  extract_public_key, parse_registration,
}
use nido.Webauthn.Key.Coordinates.{IsGiven, by_attestation, parse_registration-IsGiven}
use nido.Webauthn.Key.Ends.{extract_auth_data_from_cbor-ends}

abbrev point_x : Bytes
point_x = replicate 32 11

abbrev point_y : Bytes
point_y = replicate 32 22

-- `{1: 2, 3: -7, -1: 1, -2: x, -3: y}`.
abbrev cose_key : Bytes
cose_key =
    (0xa5 ∷ 0x01 ∷ 0x02 ∷ 0x03 ∷ 0x26 ∷ 0x20 ∷ 0x01 ∷ 0x21 ∷ 0x58 ∷ 0x20 ∷ [])
    ++ point_x
    ++ (0x22 ∷ 0x58 ∷ 0x20 ∷ [])
    ++ point_y

abbrev auth_data : Bytes
auth_data = replicate 32 0 ++ (0x45 ∷ []) ++ replicate 20 0 ++ (0 ∷ 1 ∷ 7 ∷ []) ++ cose_key

-- `{"fmt": "none", "attStmt": {}, "authData": …}`.
abbrev attestation : Bytes
attestation =
    (0xa3 ∷ 0x63 ∷ 102 ∷ 109 ∷ 116 ∷ 0x64 ∷ 110 ∷ 111 ∷ 110 ∷ 101 ∷ 0x67 ∷ 97 ∷ 116 ∷ 116 ∷ 83 ∷ 116
      ∷ 109 ∷ 116 ∷ 0xa0 ∷ 0x68 ∷ 97 ∷ 117 ∷ 116 ∷ 104 ∷ 68 ∷ 97 ∷ 116 ∷ 97 ∷ 0x58 ∷ 0x85 ∷ [])
    ++ auth_data

attestation_lem : parse_attestation_object attestation ≡ ok (4 ∷ point_x ++ point_y)
unfolding bytes_equal read_length repeat skip_item skip_value find_auth_data
    extract_auth_data_from_cbor read_short read_value read_entries set_at assemble
    extract_p256_from_cose_key get_uint16 extract_public_key_from_auth_data parse_attestation_object
attestation_lem = refl

abbrev spki : Bytes
spki = replicate 26 48 ++ 4 ∷ point_x ++ point_y

spki_lem : parse_registration (some spki) [] ≡ ok (4 ∷ point_x ++ point_y)
unfolding extract_public_key parse_registration
spki_lem = refl

-- Without a key of the browser, the attestation object.
given : IsGiven point_x point_y refl refl none attestation
unfolding bytes_equal read_length repeat skip_item skip_value find_auth_data
    extract_auth_data_from_cbor get_uint16 extract_public_key
given =
    by_attestation (replicate 32 0 ++ (0x45 ∷ []) ++ replicate 20 0 ++ (0 ∷ 1 ∷ 7 ∷ [])) 1
      no_public_key refl refl refl refl refl

parse_registration-IsGiven_example :
    parse_registration none attestation ≡ ok (4 ∷ point_x ++ point_y)
parse_registration-IsGiven_example =
    parse_registration-IsGiven point_x point_y refl refl none attestation given

extract_auth_data_from_cbor-ends_example : extract_auth_data_from_cbor attestation ≢ err out_of_fuel
extract_auth_data_from_cbor-ends_example = extract_auth_data_from_cbor-ends attestation
