-- ===== src/Money.antt =====
-- packages/frontend/src/lib/money.ts: amounts as decimal text, exact for every size.
-- A text is its code points; a regular expression is the function that decides it. `decimals` is a
-- natural number. `formatXlm` prints a float by the locale and is not modelled.
pub mod Pads
pub mod RoundTrip
pub mod Limit
use nido.Base.{
  ℕ, zero, suc, ◌+◌, ◌-◌, ◌*◌, ◌/◌, ◌%◌, ◌^◌, List, [], ◌∷◌, ◌++◌, Bool, true, false, ◌&&◌, ◌||◌,
  not, Result, ok, err, ◌==◌, leb, ltb, if◌then◌else◌, length, take, drop, replicate,
}
use nido.Base.Int.{ℤ, is_negative, magnitude}
use nido.Base.Decimal.{Text, is_digit, to_decimal, decimal_value}

abbrev pub stroops_per_xlm : ℕ
stroops_per_xlm = 10000000

abbrev pub xlm_fraction_digits : ℕ
xlm_fraction_digits = 7

pub data MoneyError : Type 0 where
  invalid_amount : Text → MoneyError

-- `s.padStart(width, "0")` and `s.padEnd(width, "0")`.
abbrev pub pad_start : ℕ → Text → Text
pad_start width s = replicate (width - length s) b'0' ++ s

abbrev pub pad_end : ℕ → Text → Text
pad_end width s = s ++ replicate (width - length s) b'0'

-- `s.replace(/0+$/, "")`.
unfoldable pub strip_zeros : Text → Text
strip_zeros [] = []
strip_zeros (c ∷ s) = elim (strip_zeros s) [
  | [] ↦ (if c == b'0' then [] else c ∷ [])
  | d ∷ r ↦ c ∷ d ∷ r
]

abbrev pub sign_of : ℤ → Text
sign_of raw = if is_negative raw then b'-' ∷ [] else []

-- The fraction without its trailing zeros; empty when the amount is whole.
abbrev pub fraction_text : ℕ → ℕ → Text
fraction_text frac decimals = strip_zeros (pad_start decimals (to_decimal frac))

unfoldable pub raw_to_decimal : ℤ → ℕ → Text
raw_to_decimal raw decimals =
    let abs = magnitude raw in
    let whole = abs / 10 ^ decimals in
    let frac = abs % 10 ^ decimals in
    if decimals == 0
    then sign_of raw ++ to_decimal abs
    else if frac == 0
    then sign_of raw ++ to_decimal whole
    else sign_of raw ++ (to_decimal whole ++ (b'.' ∷ fraction_text frac decimals))

-- `stroopsToXlm` of a bigint.
unfoldable pub stroops_to_xlm : ℤ → Text
stroops_to_xlm stroops = raw_to_decimal stroops xlm_fraction_digits

-- What `trim` removes: the white space and line ends of ECMAScript.
abbrev pub is_space : ℕ → Bool
is_space c =
    leb 9 c && leb c 13
    || c == 32
    || c == 0xa0
    || c == 0x1680
    || leb 0x2000 c && leb c 0x200a
    || c == 0x2028
    || c == 0x2029
    || c == 0x202f
    || c == 0x205f
    || c == 0x3000
    || c == 0xfeff

unfoldable pub trim_start : Text → Text
trim_start [] = []
trim_start (c ∷ s) = let rest = trim_start s in if is_space c then rest else c ∷ s

unfoldable pub trim_end : Text → Text
trim_end [] = []
trim_end (c ∷ s) = elim (trim_end s) [
  | [] ↦ (if is_space c then [] else c ∷ [])
  | d ∷ r ↦ c ∷ d ∷ r
]

unfoldable pub trim : Text → Text
trim s = trim_end (trim_start s)

unfoldable pub all_digits : Text → Bool
all_digits [] = true
all_digits (c ∷ s) = is_digit c && all_digits s

-- The text before the first point, and whether there is a point.
unfoldable pub before_dot : Text → Text
before_dot [] = []
before_dot (c ∷ s) = let rest = before_dot s in if c == b'.' then [] else c ∷ rest

-- The text behind the first point, if there is one.
unfoldable pub has_dot : Text → Bool
has_dot [] = false
has_dot (c ∷ s) = c == b'.' || has_dot s

unfoldable pub after_dot : Text → Text
after_dot [] = []
after_dot (c ∷ s) = let rest = after_dot s in if c == b'.' then s else rest

-- `/^\d+(\.\d{1,d})?$/`, which is `/^\d+$/` for `d = 0`.
unfoldable pub is_decimal : ℕ → Text → Bool
is_decimal d s =
    not (length (before_dot s) == 0)
    && all_digits (before_dot s)
    && (not (has_dot s)
        || not (d == 0)
          && not (length (after_dot s) == 0)
          && leb (length (after_dot s)) d
          && all_digits (after_dot s))

-- `trimmed.split(".")` of a text that matches is the text before the point and the one behind it.
unfoldable pub decimal_to_raw : Text → ℕ → Result MoneyError ℕ
decimal_to_raw amount d =
    let trimmed = trim amount in
    if not (is_decimal d trimmed)
    then err (invalid_amount amount)
    else ok (
        decimal_value 0 (before_dot trimmed) * 10 ^ d
        + decimal_value 0 (pad_end d (after_dot trimmed)))

unfoldable pub xlm_to_stroops : Text → Result MoneyError ℕ
xlm_to_stroops amount =
    let trimmed = trim amount in
    if not (is_decimal 7 trimmed)
    then err (invalid_amount amount)
    else ok (
        decimal_value 0 (before_dot trimmed) * stroops_per_xlm
        + decimal_value 0 (pad_end xlm_fraction_digits (after_dot trimmed)))
