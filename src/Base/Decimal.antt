-- ===== src/Base/Decimal.antt =====
-- Decimal numerals: `n.toString()`, and what `BigInt(s)` and `Number(s)` read of a text of digits.
use Prim.Native.Nat.{ℕ, zero, suc, ◌+◌, ◌-◌, ◌*◌, ◌/◌, ◌%◌, ◌^◌, ◌≤◌, ◌<◌}
use mathlib.Core.Path.{◌≡◌, refl, ap, ◌∙◌}
use mathlib.Core.Logic.{inl, inr}
use mathlib.Core.Bool.{Bool, true, false, ◌&&◌}
use mathlib.Core.List.{List, [], ◌∷◌, ◌++◌}
use native.Mathlib.Omega.{arith}
use native.Mathlib.Nat.{pow-suc}
use nido.Base.Lists.{All, length, replicate}
use nido.Base.Tests.{leb, ◌==◌, if◌then◌else◌, Bool-cases}

-- A text as its code points.
abbrev pub Text : Type 0
Text = List ℕ

abbrev pub is_digit : ℕ → Bool
is_digit c = leb b'0' c && leb c b'9'

abbrev pub IsDigit : ℕ → Type 0
IsDigit c = is_digit c ≡ true

-- The digits of `n` before `out`, with fuel.
unfoldable pub decimal_from : ℕ → ℕ → Text → Text
decimal_from zero n out = out
decimal_from (suc fuel) n out =
    let rest = decimal_from fuel (n / 10) ((b'0' + n % 10) ∷ out) in
    if n / 10 == 0 then (b'0' + n) ∷ out else rest

unfoldable pub to_decimal : ℕ → Text
unfolding decimal_from
to_decimal n = decimal_from (suc n) n []

-- The number that digits spell behind `n`.
abbrev pub decimal_value : ℕ → Text → ℕ
decimal_value n [] = n
decimal_value n (c ∷ s) = decimal_value (n * 10 + (c - b'0')) s

last_digit :
    (fuel n : ℕ) (out : Text)
    → (n / 10 == 0) ≡ true
    → decimal_from (suc fuel) n out ≡ (b'0' + n) ∷ out
unfolding decimal_from
last_digit fuel n out h = rw h

more_digits :
    (fuel n : ℕ) (out : Text)
    → (n / 10 == 0) ≡ false
    → decimal_from (suc fuel) n out ≡ decimal_from fuel (n / 10) ((b'0' + n % 10) ∷ out)
unfolding decimal_from
more_digits fuel n out h = rw h

no_fuel : (n : ℕ) (out : Text) → decimal_from 0 n out ≡ out
unfolding decimal_from
no_fuel n out = refl

value-decimal_from :
    (fuel n : ℕ) (out : Text)
    → n < fuel
    → decimal_value 0 (decimal_from fuel n out) ≡ decimal_value n out
value-decimal_from zero n out h = elim h [ ]
value-decimal_from (suc fuel) n out h = elim (Bool-cases (n / 10 == 0)) [
  | inl last ↦ rw (last_digit fuel n out last) (ap (λ (t : ℕ). decimal_value t out) (omega arith))
  | inr more ↦
      let big : 10 ≤ n = ground arith in
      let digit : n / 10 * 10 + (b'0' + n % 10 - b'0') ≡ n = omega arith in
      rw (more_digits fuel n out more) (
        value-decimal_from fuel (n / 10) ((b'0' + n % 10) ∷ out) (omega arith)
        ∙ ap (λ (t : ℕ). decimal_value t out) digit)
]

-- Printing and reading gives the number back.
pub value-to_decimal : (n : ℕ) → decimal_value 0 (to_decimal n) ≡ n
unfolding to_decimal
value-to_decimal n = value-decimal_from (suc n) n [] (omega arith)

decimal_from-IsDigit :
    (fuel n : ℕ) (out : Text) → All IsDigit out → All IsDigit (decimal_from fuel n out)
decimal_from-IsDigit zero n out h = rw no_fuel h
decimal_from-IsDigit (suc fuel) n out h = elim (Bool-cases (n / 10 == 0)) [
  | inl last ↦ rw (last_digit fuel n out last) ((ground arith), h)
  | inr more ↦
      rw (more_digits fuel n out more)
        (decimal_from-IsDigit fuel (n / 10) ((b'0' + n % 10) ∷ out) ((ground arith), h))
]

pub to_decimal-IsDigit : (n : ℕ) → All IsDigit (to_decimal n)
unfolding to_decimal
to_decimal-IsDigit n = decimal_from-IsDigit (suc n) n [] tt

-- A number below `10 ^ width` has at most `width` digits, if there is room for one.
length-decimal_from :
    (width fuel n : ℕ) (out : Text)
    → n < 10 ^ suc width
    → length (decimal_from fuel n out) ≤ suc width + length out
length-decimal_from width zero n out h = rw no_fuel (omega arith)
length-decimal_from zero (suc fuel) n out h =
    let small : (n / 10 == 0) ≡ true = ground arith in
    rw (last_digit fuel n out small) (omega arith)
length-decimal_from (suc width) (suc fuel) n out h = elim (Bool-cases (n / 10 == 0)) [
  | inl last ↦ rw (last_digit fuel n out last) (omega arith)
  | inr more ↦ rw (more_digits fuel n out more) (
      omega (
        arith,
        length-decimal_from width fuel (n / 10) ((b'0' + n % 10) ∷ out)
            (omega (arith, pow-suc 10 (suc width))),
      ))
]

pub length-to_decimal : (width n : ℕ) → n < 10 ^ suc width → length (to_decimal n) ≤ suc width
unfolding to_decimal
length-to_decimal width n h = omega (arith, length-decimal_from width (suc n) n [] h)

decimal_from_pos : (fuel n : ℕ) (out : Text) → 0 < fuel → 0 < length (decimal_from fuel n out)
decimal_from_pos zero n out h = elim h [ ]
decimal_from_pos (suc zero) n out h = elim (Bool-cases (n / 10 == 0)) [
  | inl e ↦ rw (last_digit 0 n out e) (omega arith)
  | inr e ↦ rw (more_digits 0 n out e, no_fuel) (omega arith)
]
decimal_from_pos (suc (suc fuel)) n out h = elim (Bool-cases (n / 10 == 0)) [
  | inl e ↦ rw (last_digit (suc fuel) n out e) (omega arith)
  | inr e ↦
      rw (more_digits (suc fuel) n out e)
        (decimal_from_pos (suc fuel) (n / 10) ((b'0' + n % 10) ∷ out) (omega arith))
]

pub to_decimal_pos : (n : ℕ) → 0 < length (to_decimal n)
unfolding to_decimal
to_decimal_pos n = decimal_from_pos (suc n) n [] (omega arith)

-- Leading zeros do not count.
pub value-replicate :
    (k : ℕ) (s : Text) → decimal_value 0 (replicate k b'0' ++ s) ≡ decimal_value 0 s
value-replicate zero s = refl
value-replicate (suc k) s = value-replicate k s
