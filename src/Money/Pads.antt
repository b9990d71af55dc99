-- ===== src/Money/Pads.antt =====
-- Padding and stripping zeros, and texts of digits.
use nido.Base.{
  ℕ, suc, ◌-◌, ◌≡◌, refl, ap, ◌∙◌, sym, ◌⊎◌, [], ◌∷◌, ◌++◌, true, false, inl, inr, length,
  replicate, All, arith,
}
use nido.Base.Decimal.{Text, IsDigit}
use nido.Money.{
  pad_end, strip_zeros, is_space, trim_start, trim_end, trim, all_digits, before_dot, after_dot,
  has_dot,
}

pub all_digits-All : (s : Text) → All IsDigit s → all_digits s ≡ true
unfolding all_digits
all_digits-All [] h = refl
all_digits-All (c ∷ s) (hc, h) = rw (hc, all_digits-All s h)

-- A text of digits, and one with a point before more digits.
pub before_dot-digits : (s : Text) → All IsDigit s → before_dot s ≡ s
unfolding before_dot
before_dot-digits [] h = refl
before_dot-digits (c ∷ s) (hc, h) = ground (arith, before_dot-digits s h)

pub has_dot-digits : (s : Text) → All IsDigit s → has_dot s ≡ false
unfolding has_dot
has_dot-digits [] h = refl
has_dot-digits (c ∷ s) (hc, h) = ground (arith, has_dot-digits s h)

pub after_dot-digits : (s : Text) → All IsDigit s → after_dot s ≡ []
unfolding after_dot
after_dot-digits [] h = refl
after_dot-digits (c ∷ s) (hc, h) = ground (arith, after_dot-digits s h)

pub before_dot-append : (s f : Text) → All IsDigit s → before_dot (s ++ (b'.' ∷ f)) ≡ s
unfolding before_dot
before_dot-append [] f h = refl
before_dot-append (c ∷ s) f (hc, h) = ground (arith, before_dot-append s f h)

pub has_dot-append : (s f : Text) → All IsDigit s → has_dot (s ++ (b'.' ∷ f)) ≡ true
unfolding has_dot
has_dot-append [] f h = refl
has_dot-append (c ∷ s) f (hc, h) = ground (arith, has_dot-append s f h)

pub after_dot-append : (s f : Text) → All IsDigit s → after_dot (s ++ (b'.' ∷ f)) ≡ f
unfolding after_dot
after_dot-append [] f h = refl
after_dot-append (c ∷ s) f (hc, h) = ground (arith, after_dot-append s f h)

-- A character of an amount: no white space.
abbrev pub IsPlain : ℕ → Type 0
IsPlain c = is_space c ≡ false

pub IsPlain-of_IsDigit : (c : ℕ) → IsDigit c → IsPlain c
IsPlain-of_IsDigit c h = ground arith

trim_end-plain : (s : Text) → All IsPlain s → trim_end s ≡ s
unfolding trim_end
trim_end-plain [] h = refl
trim_end-plain (c ∷ []) (hc, h) = rw hc
trim_end-plain (c ∷ d ∷ s) (hc, h) = rw (trim_end-plain (d ∷ s) h, trim_end)

trim_start-plain : (s : Text) → All IsPlain s → trim_start s ≡ s
unfolding trim_start
trim_start-plain [] h = refl
trim_start-plain (c ∷ s) (hc, h) = rw hc

pub trim-plain : (s : Text) → All IsPlain s → trim s ≡ s
unfolding trim
trim-plain s h = rw (trim_start-plain s h) (trim_end-plain s h)

-- The zeros that `strip_zeros` takes away are those that `pad_end` puts back.
strip_zeros-cons :
    (c : ℕ) (s : Text)
    → ((strip_zeros s ≡ []) × (c ≡ b'0') × (strip_zeros (c ∷ s) ≡ []))
      ⊎ (strip_zeros (c ∷ s) ≡ c ∷ strip_zeros s)
unfolding strip_zeros
strip_zeros-cons c s = ground arith

pub pad_end-strip_zeros : (s : Text) → pad_end (length s) (strip_zeros s) ≡ s
pad_end-strip_zeros [] = unfold strip_zeros in refl
pad_end-strip_zeros (c ∷ s) = elim (strip_zeros-cons c s) [
  | inl (empty, is_zero, stripped) ↦
      let rest : replicate (length s - 0) b'0' ≡ s =
        ap (λ (t : Text). t ++ replicate (length s - length t) b'0') (sym empty)
        ∙ pad_end-strip_zeros s in
      let all : length s - 0 ≡ length s = omega arith in
      let more : suc (length s) - 0 ≡ suc (length s) = omega arith in
      rw (stripped, is_zero, more, ← all) (ap (λ (t : Text). b'0' ∷ t) rest)
  | inr kept ↦
      let same : suc (length s) - suc (length (strip_zeros s)) ≡ length s - length (strip_zeros s) =
        omega arith in
      rw (kept, same) (ap (λ (t : Text). c ∷ t) (pad_end-strip_zeros s))
]
