-- ===== src/Signing/Pairs.antt =====
-- packages/passkey-sdk/src/encoding.ts: bytes and the pairs of hexadecimal digits that spell them, as
-- the program reads them with `parseInt(hex.slice(2 * i, 2 * i + 2), 16)`.
use nido.Base.{
  ℕ, zero, suc, ◌+◌, ◌*◌, ◌<◌, ◌≡◌, refl, sym, ap, ◌∙◌, [], ◌∷◌, length, length-append, arith,
}
use nido.Base.Decimal.{Text}
use nido.Base.Hex.{digit_value, hex_value, padded_hex, value-padded_hex, length-padded_hex}
use nido.ZkRecovery.Field.{Bytes, IsBytes, accumulate}
use nido.Policy.Rules.Resolve.{bytes_to_hex}

-- `hex2buf` of digits: a digit without a second one is dropped, since the array has no place for it.
unfoldable pub hex_pairs : Text → Bytes
hex_pairs [] = []
hex_pairs (c ∷ []) = []
hex_pairs (c ∷ d ∷ s) = (digit_value c * 16 + digit_value d) ∷ hex_pairs s

abbrev pub IsPair : Text → ℕ → Type 0
IsPair s b = (c : ℕ) × (d : ℕ) × (s ≡ c ∷ d ∷ []) × (digit_value c * 16 + digit_value d ≡ b)

IsPair-of : (s : Text) (b : ℕ) → length s ≡ 2 → hex_value 0 s ≡ b → IsPair s b
IsPair-of [] b h v = absurd (omega arith)
IsPair-of (c ∷ []) b h v = absurd (omega arith)
IsPair-of (c ∷ d ∷ []) b h v = (c, d, refl, omega arith)
IsPair-of (c ∷ d ∷ e ∷ s) b h v = absurd (omega arith)

pub padded_hex-IsPair : (b : ℕ) → b < 256 → IsPair (padded_hex 2 b) b
padded_hex-IsPair b h =
    IsPair-of (padded_hex 2 b) b (length-padded_hex 1 b (omega arith)) (value-padded_hex 2 b)

-- Bytes come back from their digits.
pub hex_pairs-bytes_to_hex : (b : Bytes) → IsBytes b → hex_pairs (bytes_to_hex b) ≡ b
unfolding bytes_to_hex hex_pairs
hex_pairs-bytes_to_hex [] h = refl
hex_pairs-bytes_to_hex (x ∷ b) (hx, h) =
    let (c, d, spelled, value) = padded_hex-IsPair x hx in
    rw (spelled, value, hex_pairs-bytes_to_hex b h) refl

-- Digits and the bytes that they spell have one value.
pub accumulate-hex_pairs :
    (k x : ℕ) (s : Text) → length s ≡ 2 * k → accumulate x (hex_pairs s) ≡ hex_value x s
unfolding hex_pairs
accumulate-hex_pairs zero x [] h = refl
accumulate-hex_pairs zero x (c ∷ s) h = absurd (omega arith)
accumulate-hex_pairs (suc k) x [] h = absurd (omega arith)
accumulate-hex_pairs (suc k) x (c ∷ []) h = absurd (omega arith)
accumulate-hex_pairs (suc k) x (c ∷ d ∷ s) h =
    let one : x * 256 + (digit_value c * 16 + digit_value d)
        ≡ (x * 16 + digit_value c) * 16 + digit_value d =
      omega arith in
    rw one (accumulate-hex_pairs k ((x * 16 + digit_value c) * 16 + digit_value d) s (omega arith))

pub length-hex_pairs : (k : ℕ) (s : Text) → length s ≡ 2 * k → length (hex_pairs s) ≡ k
unfolding hex_pairs
length-hex_pairs zero [] h = refl
length-hex_pairs zero (c ∷ s) h = absurd (omega arith)
length-hex_pairs (suc k) [] h = absurd (omega arith)
length-hex_pairs (suc k) (c ∷ []) h = absurd (omega arith)
length-hex_pairs (suc k) (c ∷ d ∷ s) h = ap suc (length-hex_pairs k s (omega arith))

pub length-bytes_to_hex : (b : Bytes) → IsBytes b → length (bytes_to_hex b) ≡ 2 * length b
unfolding bytes_to_hex
length-bytes_to_hex [] h = refl
length-bytes_to_hex (x ∷ b) (hx, h) = omega (
  arith,
  length-append (padded_hex 2 x) (bytes_to_hex b),
  length-padded_hex 1 x (omega arith),
  length-bytes_to_hex b h,
)

pub value-bytes_to_hex :
    (x : ℕ) (b : Bytes) → IsBytes b → hex_value x (bytes_to_hex b) ≡ accumulate x b
value-bytes_to_hex x b h =
    sym (accumulate-hex_pairs (length b) x (bytes_to_hex b) (length-bytes_to_hex b h))
    ∙ ap (accumulate x) (hex_pairs-bytes_to_hex b h)
