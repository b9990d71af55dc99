-- ===== src/Webauthn/Key/Ends.antt =====
-- webauthn.ts: the search for the authenticator data ends.
use nido.Base.{
  ℕ, zero, suc, ◌+◌, ◌≤◌, ◌<◌, ◌≢◌, Option, none, some, not, ok, err, ◌>>=◌, ◌==◌, length, Result,
  arith,
}
use nido.ZkRecovery.Field.{Bytes}
use nido.Webauthn.{
  WebauthnError, out_of_fuel, not_a_map, Offset, plus, byte_at, bits_of, slice_at, major,
  additional, read_length, rounds, skip_value,
}
use nido.Webauthn.Skip.{
  remaining, IsGood, IsGood-if, IsGood->>=, read_length-IsRead, skip_value-IsFine,
}
use nido.Webauthn.Key.{is_auth_data, find_auth_data, extract_auth_data_from_cbor}

abbrev IsAny : Bytes → Type 0
IsAny bytes = Unit

module _ (raw : Bytes) (fuel : ℕ) (enough : length raw < fuel) where
  skip-IsGood :
      (offset : Offset) (next : Offset → Result WebauthnError Bytes)
      → ((o : Offset) → IsGood raw IsAny (next o))
      → IsGood raw IsAny (skip_value fuel raw offset >>= next)
  skip-IsGood offset next h =
      IsGood->>= raw (λ (o : Offset). remaining raw o ≤ remaining raw offset) IsAny
        (skip_value fuel raw offset) next (skip_value-IsFine raw fuel offset (remaining-lt offset))
        (λ o le. h o)
    where
      remaining-lt : (o : Offset) → remaining raw o < fuel
      remaining-lt none = omega arith
      remaining-lt (some o) = omega arith

  read-IsGood :
      (info : ℕ) (offset : Offset) (next : Option ℕ × Offset → Result WebauthnError Bytes)
      → ((read : Option ℕ × Offset) → IsGood raw IsAny (next read))
      → IsGood raw IsAny (read_length raw info offset >>= next)
  read-IsGood info offset next h =
      IsGood->>= raw (λ (read : Option ℕ × Offset). remaining raw (read.1) ≤ remaining raw offset)
        IsAny (read_length raw info offset) next (read_length-IsRead raw info offset)
        (λ read le. h read)

  find_auth_data-IsGood :
      (count : ℕ) (offset : Offset) → IsGood raw IsAny (find_auth_data fuel count raw offset)
  unfolding find_auth_data
  find_auth_data-IsGood zero offset = λ e. cc
  find_auth_data-IsGood (suc count) offset =
      IsGood-if raw IsAny (not (major (bits_of (byte_at raw offset)) == 3)) _ _
        (skip-IsGood offset _ (λ o. skip-IsGood o _ (λ o'. find_auth_data-IsGood count o')))
        (read-IsGood (additional (bits_of (byte_at raw offset))) (plus offset (some 1)) _
          (λ (key_len, key_offset).
            IsGood-if raw IsAny (is_auth_data (slice_at raw key_offset key_len)) _ _
              (read-IsGood (additional (bits_of (byte_at raw (plus key_offset key_len))))
                (plus (plus key_offset key_len) (some 1)) _ (λ read. tt))
              (skip-IsGood (plus key_offset key_len) _ (λ o. find_auth_data-IsGood count o))))

IsGood-ends :
    (raw : Bytes) (r : Result WebauthnError Bytes) → IsGood raw IsAny r → r ≢ err out_of_fuel
IsGood-ends raw (ok bytes) h e = cc
IsGood-ends raw (err x) h e = h (cc)

-- The search for the authenticator data never runs out of the fuel that bounds its nesting: on
-- every input it ends with the data or with an error of the source.
pub extract_auth_data_from_cbor-ends :
    (raw : Bytes) → extract_auth_data_from_cbor raw ≢ err out_of_fuel
unfolding extract_auth_data_from_cbor
extract_auth_data_from_cbor-ends raw =
    let initial = bits_of (byte_at raw (some 0)) in
    IsGood-ends raw _ (
      IsGood-if raw IsAny (not (major initial == 5)) (err not_a_map) _ (λ e. cc)
        (read-IsGood raw (length raw + 2) (omega arith) (additional initial) (some 1) _
          (λ (map_len, offset).
            find_auth_data-IsGood raw (length raw + 2) (omega arith) (rounds map_len) offset)))
