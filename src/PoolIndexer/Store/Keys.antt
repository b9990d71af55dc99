-- ===== src/PoolIndexer/Store/Keys.antt =====
-- handler.ts: the keys of the leaves, and their order.
use nido.Base.{
  ℕ, zero, suc, ◌+◌, ◌-◌, ◌*◌, ◌^◌, ◌<◌, ◌≡◌, refl, sym, ap, ◌∙◌, [], ◌∷◌, Bool, true, false, ◌&&◌,
  ◌||◌, ◌==◌, ltb, length, length-append, length-replicate, replicate, All, All-append, arith,
}
use nido.Base.Decimal.{
  Text, IsDigit, to_decimal, decimal_value, value-to_decimal, value-replicate, to_decimal-IsDigit,
  length-to_decimal,
}
use nido.Money.{pad_start}
use nido.PoolIndexer.Store.{leaf_key, index_from_key, leaf_key_width}

-- The number that a key holds is the index that it was made from.
pub index_from_key-leaf_key : (index : ℕ) → index_from_key (leaf_key index) ≡ index
unfolding index_from_key leaf_key
index_from_key-leaf_key index =
    value-replicate (leaf_key_width - length (to_decimal index)) (to_decimal index)
    ∙ value-to_decimal index

pub leaf_key-injective : (i j : ℕ) → leaf_key i ≡ leaf_key j → i ≡ j
leaf_key-injective i j e =
    sym (index_from_key-leaf_key i) ∙ ap index_from_key e ∙ index_from_key-leaf_key j

-- The order of the store: by code, a prefix first.
abbrev pub text_lt : Text → Text → Bool
text_lt s [] = false
text_lt [] (y ∷ t) = true
text_lt (x ∷ s) (y ∷ t) = ltb x y || (x == y && text_lt s t)

-- Of two texts of digits of one length, a larger start makes a larger number.
value-lt :
    (s t : Text) (m n : ℕ)
    → length s ≡ length t
    → All IsDigit s
    → All IsDigit t
    → m < n
    → decimal_value m s < decimal_value n t
value-lt [] [] m n e hs ht h = h
value-lt [] (y ∷ t) m n e hs ht h = absurd (omega arith)
value-lt (x ∷ s) [] m n e hs ht h = absurd (omega arith)
value-lt (x ∷ s) (y ∷ t) m n e (hx, hs) (hy, ht) h =
    value-lt s t (m * 10 + (x - b'0')) (n * 10 + (y - b'0')) (omega arith) hs ht (ground arith)

text_lt-value :
    (s t : Text) (n : ℕ)
    → length s ≡ length t
    → All IsDigit s
    → All IsDigit t
    → text_lt s t ≡ ltb (decimal_value n s) (decimal_value n t)
text_lt-value [] [] n e hs ht = ground arith
text_lt-value [] (y ∷ t) n e hs ht = absurd (omega arith)
text_lt-value (x ∷ s) [] n e hs ht = absurd (omega arith)
text_lt-value (x ∷ s) (y ∷ t) n e (hx, hs) (hy, ht) = ground (
  arith,
  text_lt-value s t (n * 10 + (x - b'0')) (omega arith) hs ht,
  value-lt s t (n * 10 + (x - b'0')) (n * 10 + (y - b'0')) (omega arith) hs ht,
  value-lt t s (n * 10 + (y - b'0')) (n * 10 + (x - b'0')) (omega arith) ht hs,
)

width-key : (index : ℕ) → index < 10 ^ 8 → length (pad_start 8 (to_decimal index)) ≡ 8
width-key index h = omega (
  arith,
  length-append (replicate (8 - length (to_decimal index)) b'0') (to_decimal index),
  length-replicate {A = ℕ} (8 - length (to_decimal index)) b'0',
  length-to_decimal 7 index h,
)

zeros-IsDigit : (n : ℕ) → All IsDigit (replicate n b'0')
zeros-IsDigit zero = tt
zeros-IsDigit (suc n) = (refl, zeros-IsDigit n)

key-IsDigit : (index : ℕ) → All IsDigit (pad_start 8 (to_decimal index))
key-IsDigit index =
    All-append IsDigit (replicate (8 - length (to_decimal index)) b'0') (to_decimal index)
      (zeros-IsDigit (8 - length (to_decimal index))) (to_decimal-IsDigit index)

value-key : (index : ℕ) → decimal_value 0 (pad_start 8 (to_decimal index)) ≡ index
value-key index =
    value-replicate (8 - length (to_decimal index)) (to_decimal index) ∙ value-to_decimal index

-- Below 10^8, the order of the keys in the store is the order of the indices.
pub text_lt-leaf_key :
    (i j : ℕ) → i < 10 ^ 8 → j < 10 ^ 8 → text_lt (leaf_key i) (leaf_key j) ≡ ltb i j
unfolding leaf_key
text_lt-leaf_key i j hi hj =
    let key = λ (index : ℕ). pad_start 8 (to_decimal index) in
    let same : length (key i) ≡ length (key j) = omega (arith, width-key i hi, width-key j hj) in
    let values = text_lt-value (key i) (key j) 0 same (key-IsDigit i) (key-IsDigit j) in
    rw (value-key i, value-key j) at values
