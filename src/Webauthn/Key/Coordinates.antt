-- ===== src/Webauthn/Key/Coordinates.antt =====
-- webauthn.ts: the coordinates that a registration gives, of an authenticator's COSE key or of an SPKI.
use nido.Base.{
  ℕ, zero, suc, ◌+◌, ◌-◌, ◌≡◌, refl, sym, ap, ◌∙◌, [], ◌∷◌, ◌++◌, Option, none, some, true, ok, err,
  length, get_elem?, take, drop, slice, replicate, length-append, append-nil, arith,
}
use nido.ZkRecovery.Field.{Bytes}
use nido.Webauthn.{WebauthnError, get_uint16, bits_of}
use nido.Webauthn.Key.{
  has_credential, read_short, read_value, set_at, assemble, read_entries,
  extract_p256_from_cose_key, extract_public_key_from_auth_data, parse_attestation_object,
  extract_public_key, parse_registration, extract_auth_data_from_cbor,
}

-- A COSE key of a curve point: `{1: 2, 3: -7, -1: 1, -2: x, -3: y}`.
abbrev pub cose_of : Bytes → Bytes → Bytes
cose_of x y =
    0xa5
    ∷ 0x01
    ∷ 0x02
    ∷ 0x03
    ∷ 0x26
    ∷ 0x20
    ∷ 0x01
    ∷ 0x21
    ∷ 0x58
    ∷ 0x20
    ∷ (x ++ (0x22 ∷ 0x58 ∷ 0x20 ∷ y))

get_elem?-at :
    (n i : ℕ) (xs post : Bytes) → length xs ≡ n → get_elem? (xs ++ post) (n + i) ≡ get_elem? post i
get_elem?-at zero i [] post e = let same : 0 + i ≡ i = omega arith in rw same refl
get_elem?-at zero i (b ∷ xs) post e = absurd (omega (arith, e))
get_elem?-at (suc n) i [] post e = absurd (omega (arith, e))
get_elem?-at (suc n) i (b ∷ xs) post e =
    let moved : suc n + i ≡ suc (n + i) = omega arith in
    rw moved (get_elem?-at n i xs post (omega (arith, e)))

take-at : (n : ℕ) (xs post : Bytes) → length xs ≡ n → take n (xs ++ post) ≡ xs
take-at zero [] post e = refl
take-at zero (b ∷ xs) post e = absurd (omega (arith, e))
take-at (suc n) [] post e = absurd (omega (arith, e))
take-at (suc n) (b ∷ xs) post e = ap (λ (t : Bytes). b ∷ t) (take-at n xs post (omega (arith, e)))

drop-at : (n i : ℕ) (xs post : Bytes) → length xs ≡ n → drop (n + i) (xs ++ post) ≡ drop i post
drop-at zero i [] post e = let same : 0 + i ≡ i = omega arith in rw same refl
drop-at zero i (b ∷ xs) post e = absurd (omega (arith, e))
drop-at (suc n) i [] post e = absurd (omega (arith, e))
drop-at (suc n) i (b ∷ xs) post e =
    let moved : suc n + i ≡ suc (n + i) = omega arith in
    rw moved (drop-at n i xs post (omega (arith, e)))

take-whole : (n : ℕ) (xs : Bytes) → length xs ≡ n → take n xs ≡ xs
take-whole n xs e = ap (take n) (sym (append-nil xs)) ∙ take-at n xs [] e

x_step :
    (cose bytes : Bytes) (o count : ℕ) (found y : Option Bytes)
    → get_elem? cose o ≡ some 0x21
    → get_elem? cose (o + 1) ≡ some 0x58
    → get_elem? cose (o + 1 + 1) ≡ some 32
    → slice cose (o + 1 + 1 + 1) (o + 1 + 1 + 1 + 32) ≡ bytes
    → read_entries (suc count) cose (found, y) (some o)
      ≡ read_entries count cose (some bytes, y) (some (o + 1 + 1 + 1 + 32))
unfolding read_entries read_value read_short
x_step cose bytes o count found y k v l s = rw (read_entries, k, v, l, s) refl

y_step :
    (cose bytes : Bytes) (o count : ℕ) (x found : Option Bytes)
    → get_elem? cose o ≡ some 0x22
    → get_elem? cose (o + 1) ≡ some 0x58
    → get_elem? cose (o + 1 + 1) ≡ some 32
    → slice cose (o + 1 + 1 + 1) (o + 1 + 1 + 1 + 32) ≡ bytes
    → read_entries (suc count) cose (x, found) (some o)
      ≡ read_entries count cose (x, some bytes) (some (o + 1 + 1 + 1 + 32))
unfolding read_entries read_value read_short
y_step cose bytes o count x found k v l s = rw (read_entries, k, v, l, s) refl

module _ (x y : Bytes) (long_x : length x ≡ 32) (long_y : length y ≡ 32) where
  assemble_lem : assemble (some x, some y) ≡ ok (4 ∷ (x ++ y))
  unfolding assemble set_at
  assemble_lem =
      let half : set_at (4 ∷ replicate 64 0) x 1 ≡ ok (4 ∷ (x ++ replicate 32 0)) =
        rw (set_at, long_x) refl in
      let zeros = replicate {A = ℕ} 32 0 in
      let total : length (4 ∷ (x ++ zeros)) ≡ 65 = omega (arith, length-append x zeros, long_x) in
      let whole : set_at (4 ∷ (x ++ zeros)) y 33 ≡ ok (4 ∷ (x ++ y)) =
        rw
          (
            set_at,
            total,
            long_y,
            take-at 32 x zeros long_x,
            drop-at 32 32 x zeros long_x,
            append-nil y,
          )
          refl in
      rw (assemble, half, whole) refl

  -- The COSE key of a point gives the point.
  extract_p256_from_cose_key-cose_of : extract_p256_from_cose_key (cose_of x y) ≡ ok (4 ∷ (x ++ y))
  unfolding extract_p256_from_cose_key read_entries read_value read_short
  extract_p256_from_cose_key-cose_of =
      let tail = 0x22 ∷ 0x58 ∷ 0x20 ∷ y in
      let first = x_step (cose_of x y) x 7 1 none none refl refl refl (take-at 32 x tail long_x) in
      let second =
        y_step (cose_of x y) y 42 0 (some x) none (get_elem?-at 32 0 x tail long_x)
          (get_elem?-at 32 1 x tail long_x) (get_elem?-at 32 2 x tail long_x)
          (ap (take 32) (drop-at 32 3 x tail long_x) ∙ take-whole 32 y long_y) in
      rw (extract_p256_from_cose_key, first, second) assemble_lem

  -- What the browser gives of a point: an SPKI that ends with it, or none that is of use and an
  -- attestation object whose authenticator data has the COSE key of the point behind a credential's
  -- id.
  pub data IsGiven (spki : Option Bytes) (object : Bytes) : Type 0 where
    by_spki : (pre : Bytes) → spki ≡ some (pre ++ 4 ∷ (x ++ y)) → IsGiven spki object
    by_attestation :
        (head : Bytes) (n : ℕ) (why : WebauthnError)
        → extract_public_key spki ≡ err why
        → extract_auth_data_from_cbor object ≡ ok (head ++ cose_of x y)
        → has_credential (bits_of (get_elem? (head ++ cose_of x y) 32)) ≡ true
        → get_uint16 (head ++ cose_of x y) (some 53) ≡ ok n
        → length head ≡ 55 + n
        → IsGiven spki object

  attestation_lem :
      (head : Bytes) (n : ℕ)
      → has_credential (bits_of (get_elem? (head ++ cose_of x y) 32)) ≡ true
      → get_uint16 (head ++ cose_of x y) (some 53) ≡ ok n
      → length head ≡ 55 + n
      → extract_public_key_from_auth_data (head ++ cose_of x y) ≡ ok (4 ∷ (x ++ y))
  unfolding extract_public_key_from_auth_data
  attestation_lem head n flag id size =
      let cose = cose_of x y in
      let count : length cose ≡ 77 =
        omega (arith, length-append x (0x22 ∷ 0x58 ∷ 0x20 ∷ y), long_x, long_y) in
      let width : 55 + n + 77 - (55 + n) ≡ 77 = omega arith in
      let start : 55 + n + 0 ≡ 55 + n = omega arith in
      let dropped : drop (55 + n) (head ++ cose) ≡ cose =
        rw start at (drop-at (55 + n) 0 head cose size) in
      let cut : slice (head ++ cose) (55 + n) (55 + n + 77) ≡ cose =
        rw (width, dropped) (take-whole 77 cose count) in
      rw (extract_public_key_from_auth_data, flag, id, cut) extract_p256_from_cose_key-cose_of

  -- A registration gives the point: of an SPKI that ends with it, the last 65 bytes, and without one,
  -- the coordinates of the COSE key at their places behind 0x04. The coordinates have 32 bytes.
  pub parse_registration-IsGiven :
      (spki : Option Bytes) (object : Bytes)
      → IsGiven spki object
      → parse_registration spki object ≡ ok (4 ∷ (x ++ y))
  unfolding parse_registration extract_public_key parse_attestation_object
  parse_registration-IsGiven spki object (by_spki pre e) =
      let point = 4 ∷ (x ++ y) in
      let size : length point ≡ 65 = omega (arith, length-append x y, long_x, long_y) in
      let whole : length (pre ++ point) ≡ length pre + 65 =
        omega (arith, length-append pre point, size) in
      let start : length pre + 65 - 65 ≡ length pre + 0 = omega arith in
      let dropped : drop (length pre + 0) (pre ++ point) ≡ point =
        drop-at (length pre) 0 pre point refl in
      let ended : drop (length (pre ++ point) - 65) (pre ++ point) ≡ point =
        rw (whole, start) dropped in
      rw (e, parse_registration, extract_public_key, ended) (ap ok ended)
  parse_registration-IsGiven spki object (by_attestation head n why useless data_ok flag id size) =
      rw (parse_registration, useless, parse_attestation_object, data_ok)
        (attestation_lem head n flag id size)
