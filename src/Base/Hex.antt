-- ===== src/Base/Hex.antt =====
-- Hexadecimal numerals: `n.toString(16)`, and what `BigInt` and `parseInt` read of hex digits.
use Prim.Native.Nat.{ℕ, zero, suc, ◌+◌, ◌-◌, ◌*◌, ◌/◌, ◌%◌, ◌^◌, ◌≤◌, ◌<◌}
use mathlib.Core.Path.{◌≡◌, refl, ap, ◌∙◌}
use mathlib.Core.Logic.{inl, inr}
use mathlib.Core.Bool.{Bool, true, false, ◌&&◌, ◌||◌}
use mathlib.Core.List.{[], ◌∷◌, ◌++◌}
use native.Mathlib.Omega.{arith}
use native.Mathlib.Nat.{pow-suc}
use nido.Base.Lists.{All, length, replicate, length-append, length-replicate, All-append}
use nido.Base.Tests.{ltb, leb, ◌==◌, if◌then◌else◌, Bool-cases}
use nido.Base.Decimal.{Text, is_digit}

abbrev pub is_hex : ℕ → Bool
is_hex c = is_digit c || leb b'a' c && leb c b'f' || leb b'A' c && leb c b'F'

abbrev pub IsHex : ℕ → Type 0
IsHex c = is_hex c ≡ true

unfoldable pub hex_digit : ℕ → ℕ
hex_digit d = if ltb d 10 then b'0' + d else b'a' + (d - 10)

unfoldable pub digit_value : ℕ → ℕ
digit_value c = if is_digit c then c - b'0' else if leb b'a' c then c - b'a' + 10 else c - b'A' + 10

-- The digits of `n` before `out`, with fuel.
unfoldable pub hex_from : ℕ → ℕ → Text → Text
hex_from zero n out = out
hex_from (suc fuel) n out =
    let rest = hex_from fuel (n / 16) (hex_digit (n % 16) ∷ out) in
    if n / 16 == 0 then hex_digit n ∷ out else rest

unfoldable pub to_hex : ℕ → Text
unfolding hex_from
to_hex n = hex_from (suc n) n []

-- The number that digits spell behind `n`.
abbrev pub hex_value : ℕ → Text → ℕ
hex_value n [] = n
hex_value n (c ∷ s) = hex_value (n * 16 + digit_value c) s

no_fuel : (n : ℕ) (out : Text) → hex_from 0 n out ≡ out
unfolding hex_from
no_fuel n out = refl

last_digit :
    (fuel n : ℕ) (out : Text) → (n / 16 == 0) ≡ true → hex_from (suc fuel) n out ≡ hex_digit n ∷ out
unfolding hex_from
last_digit fuel n out h = rw h

more_digits :
    (fuel n : ℕ) (out : Text)
    → (n / 16 == 0) ≡ false
    → hex_from (suc fuel) n out ≡ hex_from fuel (n / 16) (hex_digit (n % 16) ∷ out)
unfolding hex_from
more_digits fuel n out h = rw h

pub digit_value-hex_digit : (d : ℕ) → d < 16 → digit_value (hex_digit d) ≡ d
unfolding hex_digit digit_value
digit_value-hex_digit d h = ground arith

pub hex_digit-IsHex : (d : ℕ) → d < 16 → IsHex (hex_digit d)
unfolding hex_digit
hex_digit-IsHex d h = ground arith

value-hex_from :
    (fuel n : ℕ) (out : Text) → n < fuel → hex_value 0 (hex_from fuel n out) ≡ hex_value n out
value-hex_from zero n out h = elim h [ ]
value-hex_from (suc fuel) n out h = elim (Bool-cases (n / 16 == 0)) [
  | inl last ↦
      let small : n < 16 = ground arith in
      rw (last_digit fuel n out last)
        (ap (λ (t : ℕ). hex_value t out) (omega (arith, digit_value-hex_digit n small)))
  | inr more ↦
      let big : 16 ≤ n = ground arith in
      let digit : n / 16 * 16 + digit_value (hex_digit (n % 16)) ≡ n =
        rw (digit_value-hex_digit (n % 16) (omega arith)) (omega arith) in
      rw (more_digits fuel n out more) (
        value-hex_from fuel (n / 16) (hex_digit (n % 16) ∷ out) (omega arith)
        ∙ ap (λ (t : ℕ). hex_value t out) digit)
]

pub value-to_hex : (n : ℕ) → hex_value 0 (to_hex n) ≡ n
unfolding to_hex
value-to_hex n = value-hex_from (suc n) n [] (omega arith)

hex_from-IsHex : (fuel n : ℕ) (out : Text) → All IsHex out → All IsHex (hex_from fuel n out)
hex_from-IsHex zero n out h = rw no_fuel h
hex_from-IsHex (suc fuel) n out h = elim (Bool-cases (n / 16 == 0)) [
  | inl last ↦
      let small : n < 16 = ground arith in
      rw (last_digit fuel n out last) (hex_digit-IsHex n small, h)
  | inr more ↦ rw (more_digits fuel n out more) (
      hex_from-IsHex fuel (n / 16) (hex_digit (n % 16) ∷ out)
        (hex_digit-IsHex (n % 16) (omega arith), h))
]

length-hex_from :
    (width fuel n : ℕ) (out : Text)
    → n < 16 ^ suc width
    → length (hex_from fuel n out) ≤ suc width + length out
length-hex_from width zero n out h = rw no_fuel (omega arith)
length-hex_from zero (suc fuel) n out h =
    let small : (n / 16 == 0) ≡ true = ground arith in
    rw (last_digit fuel n out small) (omega arith)
length-hex_from (suc width) (suc fuel) n out h = elim (Bool-cases (n / 16 == 0)) [
  | inl last ↦ rw (last_digit fuel n out last) (omega arith)
  | inr more ↦ rw (more_digits fuel n out more) (
      omega (
        arith,
        length-hex_from width fuel (n / 16) (hex_digit (n % 16) ∷ out)
            (omega (arith, pow-suc 16 (suc width))),
      ))
]

value-zeros : (k : ℕ) (s : Text) → hex_value 0 (replicate k b'0' ++ s) ≡ hex_value 0 s
unfolding digit_value
value-zeros zero s = refl
value-zeros (suc k) s = value-zeros k s

zeros-IsHex : (k : ℕ) → All IsHex (replicate k b'0')
zeros-IsHex zero = tt
zeros-IsHex (suc k) = (refl, zeros-IsHex k)

-- `n.toString(16).padStart(width, "0")`.
unfoldable pub padded_hex : ℕ → ℕ → Text
padded_hex width n = replicate (width - length (to_hex n)) b'0' ++ to_hex n

pub value-padded_hex : (width n : ℕ) → hex_value 0 (padded_hex width n) ≡ n
unfolding padded_hex
value-padded_hex width n = value-zeros (width - length (to_hex n)) (to_hex n) ∙ value-to_hex n

pub padded_hex-IsHex : (width n : ℕ) → All IsHex (padded_hex width n)
unfolding padded_hex to_hex
padded_hex-IsHex width n =
    All-append IsHex (replicate (width - length (to_hex n)) b'0') (to_hex n)
      (zeros-IsHex (width - length (to_hex n))) (hex_from-IsHex (suc n) n [] tt)

pub length-padded_hex :
    (width n : ℕ) → n < 16 ^ suc width → length (padded_hex (suc width) n) ≡ suc width
unfolding padded_hex to_hex
length-padded_hex width n h = omega (
  arith,
  length-append (replicate (suc width - length (to_hex n)) b'0') (to_hex n),
  length-replicate {A = ℕ} (suc width - length (to_hex n)) b'0',
  length-hex_from width (suc n) n [] h,
)
