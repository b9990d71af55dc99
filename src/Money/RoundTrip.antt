-- ===== src/Money/RoundTrip.antt =====
-- Printing an amount and parsing it gives the amount back.
use native.Mathlib.Nat.{div-add-mod', mod-lt, one-le-pow}
use nido.Base.{
  ℕ, zero, suc, ◌+◌, ◌-◌, ◌*◌, ◌/◌, ◌%◌, ◌^◌, ◌≤◌, ◌<◌, ◌≡◌, refl, ap, ◌∙◌, sym, [], ◌∷◌, ◌++◌,
  true, false, inl, inr, ok, err, ◌==◌, leb, if◌then◌else◌, length, length-append, length-replicate,
  replicate, All, All-append, suc_ne_zero, not, ◌&&◌, Bool-cases, arith,
}
use nido.Base.Int.{pos}
use nido.Base.Decimal.{
  Text, IsDigit, to_decimal, decimal_value, value-to_decimal, to_decimal-IsDigit, length-to_decimal,
  to_decimal_pos, value-replicate,
}
use nido.Money.{
  pad_start, pad_end, strip_zeros, fraction_text, raw_to_decimal, stroops_to_xlm, invalid_amount,
  is_decimal, decimal_to_raw, xlm_to_stroops,
}
use nido.Money.Pads.{
  all_digits-All, before_dot-digits, has_dot-digits, after_dot-digits, before_dot-append,
  has_dot-append, after_dot-append, IsPlain, IsPlain-of_IsDigit, trim-plain, pad_end-strip_zeros,
}

All-IsPlain : (s : Text) → All IsDigit s → All IsPlain s
All-IsPlain [] h = tt
All-IsPlain (c ∷ s) (hc, h) = (IsPlain-of_IsDigit c hc, All-IsPlain s h)

replicate-IsDigit : (k : ℕ) → All IsDigit (replicate k b'0')
replicate-IsDigit zero = tt
replicate-IsDigit (suc k) = (refl, replicate-IsDigit k)

strip_zeros-IsDigit : (s : Text) → All IsDigit s → All IsDigit (strip_zeros s)
unfolding strip_zeros
strip_zeros-IsDigit [] h = tt
strip_zeros-IsDigit (c ∷ s) (hc, h) = ground (arith, strip_zeros-IsDigit s h)

value_of_zeros : (k : ℕ) → decimal_value 0 (replicate k b'0') ≡ 0
value_of_zeros zero = refl
value_of_zeros (suc k) = value_of_zeros k

some_digit : (s : Text) → 0 < length s → (length s == 0) ≡ false
some_digit s h = ground arith

-- A whole number is parsed as it is printed.
parse_whole : (n d : ℕ) → decimal_to_raw (to_decimal n) d ≡ ok (n * 10 ^ d)
unfolding decimal_to_raw is_decimal
parse_whole n d =
    let digits = to_decimal-IsDigit n in
    let clean = trim-plain (to_decimal n) (All-IsPlain (to_decimal n) digits) in
    rw
      (
        clean,
        before_dot-digits (to_decimal n) digits,
        has_dot-digits (to_decimal n) digits,
        after_dot-digits (to_decimal n) digits,
        all_digits-All (to_decimal n) digits,
        some_digit (to_decimal n) (to_decimal_pos n),
        value-to_decimal n,
        value_of_zeros (d - 0),
      )
      (ap ok (omega arith))

length-pad_start : (w : ℕ) (s : Text) → length s ≤ w → length (pad_start w s) ≡ w
length-pad_start w s h = omega (
  arith,
  length-append (replicate (w - length s) b'0') s,
  length-replicate {A = ℕ} (w - length s) b'0',
)

length-strip_zeros : (s : Text) → length (strip_zeros s) ≤ length s
unfolding strip_zeros
length-strip_zeros [] = omega arith
length-strip_zeros (c ∷ s) = ground (arith, length-strip_zeros s)

nonempty_of_value : (w : ℕ) (f : Text) → 0 < decimal_value 0 (pad_end w f) → 0 < length f
nonempty_of_value w [] h = absurd (omega (arith, value_of_zeros (w - 0)))
nonempty_of_value w (c ∷ f) h = omega arith

-- What the printed fraction is: one to `d` digits, whose padding has the value `frac`.
record IsFraction (frac d : ℕ) (f : Text) : Type 0 where
  digits : All IsDigit f
  not_empty : 0 < length f
  short : length f ≤ d
  value : decimal_value 0 (pad_end d f) ≡ frac

pad_start-IsDigit : (w : ℕ) (s : Text) → All IsDigit s → All IsDigit (pad_start w s)
pad_start-IsDigit w s h = All-append IsDigit _ s (replicate-IsDigit (w - length s)) h

fraction_text-IsFraction :
    (frac d : ℕ)
    → 0 < frac
    → frac < 10 ^ suc d
    → IsFraction frac (suc d) (fraction_text frac (suc d))
fraction_text-IsFraction frac d positive fits =
    let padded = pad_start (suc d) (to_decimal frac) in
    let size : length padded ≡ suc d =
      length-pad_start (suc d) (to_decimal frac) (length-to_decimal d frac fits) in
    let value : decimal_value 0 (pad_end (suc d) (strip_zeros padded)) ≡ frac =
      ap (λ (t : ℕ). decimal_value 0 (pad_end t (strip_zeros padded))) (sym size)
      ∙ ap (decimal_value 0) (pad_end-strip_zeros padded)
      ∙ value-replicate (suc d - length (to_decimal frac)) (to_decimal frac)
      ∙ value-to_decimal frac in
    record {
      digits =
          strip_zeros-IsDigit padded
            (pad_start-IsDigit (suc d) (to_decimal frac) (to_decimal-IsDigit frac));
      not_empty = nonempty_of_value (suc d) (strip_zeros padded) (omega (arith, value));
      short = omega (arith, length-strip_zeros padded);
      value = value;
    }

in_range :
    (k d x : ℕ) (amount : Text)
    → k ≤ suc d
    → (if not (not (suc d == 0) && true && leb k (suc d) && true)
        then err (invalid_amount amount)
        else ok x)
      ≡ ok x
in_range k d x amount h = ground arith

-- A number with a fraction is parsed as it is printed.
parse_point :
    (n frac d : ℕ) (f : Text)
    → IsFraction frac (suc d) f
    → decimal_to_raw (to_decimal n ++ (b'.' ∷ f)) (suc d) ≡ ok (n * 10 ^ suc d + frac)
unfolding decimal_to_raw is_decimal
parse_point n frac d f is =
    let digits = to_decimal-IsDigit n in
    let plain =
      All-append IsPlain (to_decimal n) (b'.' ∷ f) (All-IsPlain (to_decimal n) digits)
        (refl, All-IsPlain f is.digits) in
    rw
      (
        trim-plain (to_decimal n ++ (b'.' ∷ f)) plain,
        before_dot-append (to_decimal n) f digits,
        has_dot-append (to_decimal n) f digits,
        after_dot-append (to_decimal n) f digits,
        all_digits-All (to_decimal n) digits,
        all_digits-All f is.digits,
        some_digit (to_decimal n) (to_decimal_pos n),
        some_digit f is.not_empty,
        value-to_decimal n,
        is.value,
      )
      (in_range (length f) d _ _ is.short)

whole_lem : (n d : ℕ) → (n % 10 ^ d == 0) ≡ true → n / 10 ^ d * 10 ^ d ≡ n
whole_lem n d h = let e : n % 10 ^ d ≡ 0 = ground arith in omega (arith, div-add-mod' n (10 ^ d))

-- `decimalToRaw` reads back what `rawToDecimal` prints of an amount that is not negative, at any
-- number of decimals.
pub decimal_to_raw-raw_to_decimal : (n d : ℕ) → decimal_to_raw (raw_to_decimal (pos n) d) d ≡ ok n
unfolding raw_to_decimal
decimal_to_raw-raw_to_decimal n zero = parse_whole n 0 ∙ ap ok (omega arith)
decimal_to_raw-raw_to_decimal n (suc d) = elim (Bool-cases (n % 10 ^ suc d == 0)) [
  | inl whole ↦
      rw (suc_ne_zero d, whole)
        (parse_whole (n / 10 ^ suc d) (suc d) ∙ ap ok (whole_lem n (suc d) whole))
  | inr part ↦
      rw (suc_ne_zero d, part)
        (parse_point (n / 10 ^ suc d) (n % 10 ^ suc d) d _ (
            fraction_text-IsFraction (n % 10 ^ suc d) d (ground arith)
              (mod-lt n (one-le-pow (suc d) 10 (omega arith))))
          ∙ ap ok (div-add-mod' n (10 ^ suc d)))
]

-- `xlmToStroops` reads back what `stroopsToXlm` prints of a number of stroops.
pub xlm_to_stroops-stroops_to_xlm : (n : ℕ) → xlm_to_stroops (stroops_to_xlm (pos n)) ≡ ok n
unfolding xlm_to_stroops stroops_to_xlm decimal_to_raw
xlm_to_stroops-stroops_to_xlm n = decimal_to_raw-raw_to_decimal n 7
