-- ===== src/Signing/Der.antt =====
-- packages/passkey-sdk/src/signature.ts: a DER signature in the compact form with a low S.
pub mod Values
pub mod Compact
use nido.Base.{
  ℕ, zero, suc, ◌+◌, ◌-◌, ◌*◌, ◌/◌, ◌%◌, List, [], ◌∷◌, ◌++◌, Option, none, some, Bool, false,
  Result, ok, err, ◌>>=◌, ◌>>◌, ◌==◌, ltb, leb, not, if◌then◌else◌, length, get_elem?, take, drop,
  slice, replicate,
}
use nido.Base.Decimal.{Text}
use nido.Base.Hex.{to_hex, hex_value, digit_value, padded_hex}
use nido.ZkRecovery.Field.{Bytes}
use nido.Policy.Rules.Resolve.{bytes_to_hex}
use nido.Signing.Pairs.{hex_pairs}

pub data DerError : Type 0 where
  invalid_der no_tag_r no_tag_s : DerError

abbrev pub p256_n : ℕ
p256_n = 0xffffffff00000000ffffffffffffffffbce6faada7179e84f3b9cac2fc632551

abbrev pub p256_n_half : ℕ
p256_n_half = p256_n / 2

-- `der[offset] === byte`; past the end there is no byte.
unfoldable pub is_byte : Bytes → ℕ → ℕ → Bool
is_byte der offset byte = elim (get_elem? {A = ℕ} der offset) [ none ↦ false | some b ↦ b == byte ]

unfoldable pub pad_or_trim_to32 : Bytes → Bytes
pad_or_trim_to32 raw =
    if leb (length raw) 32 then replicate (32 - length raw) 0 ++ raw else drop (length raw - 32) raw

unfoldable pub buf_to_big_int : Bytes → ℕ
buf_to_big_int buf = hex_value 0 (bytes_to_hex buf)

-- A pair of digits in a text that may hold a sign: `parseInt` stops before a sign that comes second,
-- and a byte array takes a negative number modulo 256.
unfoldable pub signed_pairs : Text → Bytes
signed_pairs [] = []
signed_pairs (c ∷ []) = digit_value c ∷ []
signed_pairs (c ∷ d ∷ s) =
    let rest = signed_pairs s in
    if c == b'-'
    then (256 - digit_value d) % 256 ∷ rest
    else if d == b'-'
    then digit_value c ∷ rest
    else (digit_value c * 16 + digit_value d) ∷ rest

-- The bytes of `n - m` in 64 digits, a negative number with its sign among them.
unfoldable pub difference_to_buf32 : ℕ → ℕ → Bytes
difference_to_buf32 n m =
    if leb m n
    then hex_pairs (take 64 (padded_hex 64 (n - m)))
    else signed_pairs
        (take 64 (replicate (64 - suc (length (to_hex (m - n)))) b'0' ++ b'-' ∷ to_hex (m - n)))

unfoldable pub low_s : Bytes → Bytes
low_s s =
    if ltb p256_n_half (buf_to_big_int s) then difference_to_buf32 p256_n (buf_to_big_int s) else s

unfoldable pub compact_of : Bytes → Bytes → Bytes
compact_of r_raw s_raw = pad_or_trim_to32 r_raw ++ low_s (pad_or_trim_to32 s_raw)

-- The length byte at an offset, and the bytes behind it. A length that is missing slices nothing.
unfoldable pub raw_at : Bytes → ℕ → Bytes
raw_at der offset = elim (get_elem? {A = ℕ} der offset) [
  | none ↦ []
  | some len ↦ slice der (offset + 1) (offset + 1 + len)
]

-- S from its tag on.
unfoldable pub read_s : Bytes → ℕ → Bytes → Result DerError Bytes
read_s der offset r_raw =
    if not (is_byte der offset 2)
    then err no_tag_s
    else ok (compact_of r_raw (raw_at der (offset + 1)))

unfoldable pub der_to_compact : Bytes → Result DerError Bytes
der_to_compact der =
    if not (is_byte der 0 0x30)
    then err invalid_der
    else if not (is_byte der 2 2)
    then err no_tag_r
    else elim (get_elem? {A = ℕ} der 3) [
      | none ↦ err no_tag_s
      | some r_len ↦ read_s der (4 + r_len) (raw_at der 3)
    ]
