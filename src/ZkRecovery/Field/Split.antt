-- ===== src/ZkRecovery/Field/Split.antt =====
-- field.ts: `split16` cuts 32 bytes into two halves that are field elements, with nothing lost.
use nido.Base.{
  ℕ, zero, suc, ◌+◌, ◌^◌, ◌<◌, ◌≤◌, ◌≡◌, refl, ap, [], ◌∷◌, ok, length, take, drop, arith,
}
use nido.ZkRecovery.Field.{Fr, Bytes, IsBytes, accumulate, bytes_to_big_int_be, split16}
use nido.ZkRecovery.Field.Bytes.{accumulate-lt, accumulate-injective}

pub take-IsBytes : (n : ℕ) (b : Bytes) → IsBytes b → IsBytes (take n b)
take-IsBytes zero b h = tt
take-IsBytes (suc n) [] h = tt
take-IsBytes (suc n) (c ∷ b) (hc, h) = (hc, take-IsBytes n b h)

pub drop-IsBytes : (n : ℕ) (b : Bytes) → IsBytes b → IsBytes (drop n b)
drop-IsBytes zero b h = h
drop-IsBytes (suc n) [] h = tt
drop-IsBytes (suc n) (c ∷ b) (hc, h) = drop-IsBytes n b h

pub length-take_of_le : (n : ℕ) (b : Bytes) → n ≤ length b → length (take n b) ≡ n
length-take_of_le zero b h = refl
length-take_of_le (suc n) [] h = absurd (omega arith)
length-take_of_le (suc n) (c ∷ b) h = ap suc (length-take_of_le n b (omega arith))

pub length-drop_add : (n : ℕ) (b : Bytes) → n ≤ length b → length (drop n b) + n ≡ length b
length-drop_add zero b h = omega arith
length-drop_add (suc n) [] h = absurd (omega arith)
length-drop_add (suc n) (c ∷ b) h = omega (arith, length-drop_add n b (omega arith))

pub take_all : (n : ℕ) (b : Bytes) → length b ≡ n → take n b ≡ b
take_all zero [] h = refl
take_all zero (c ∷ b) h = absurd (omega arith)
take_all (suc n) [] h = refl
take_all (suc n) (c ∷ b) h = ap (λ (t : Bytes). c ∷ t) (take_all n b (omega arith))

pub take-drop_injective : (n : ℕ) (b c : Bytes) → take n b ≡ take n c → drop n b ≡ drop n c → b ≡ c
take-drop_injective zero b c h k = k
take-drop_injective (suc n) [] [] h k = refl
take-drop_injective (suc n) [] (d ∷ c) h k = cc
take-drop_injective (suc n) (d ∷ b) [] h k = cc
take-drop_injective (suc n) (d ∷ b) (e ∷ c) h k =
    let heads : d ≡ e = cc in
    let tails : take n b ≡ take n c = cc in cc (take-drop_injective n b c tails k)

-- The halves of 32 bytes, as numbers.
abbrev pub high : Bytes → Fr
high b = accumulate 0 (take 16 b)

abbrev pub low : Bytes → Fr
low b = accumulate 0 (drop 16 b)

pub split16_lem : (b : Bytes) → length b ≡ 32 → split16 b ≡ ok (high b, low b)
unfolding split16 bytes_to_big_int_be
split16_lem b len =
    let rest : length (drop 16 b) ≡ 16 = omega (arith, length-drop_add 16 b (omega arith)) in
    ground (arith, take_all 16 (drop 16 b) rest)

pub high-lt : (b : Bytes) → IsBytes b → length b ≡ 32 → high b < 2 ^ 128
high-lt b h len =
    let first : length (take 16 b) ≡ 16 = omega (arith, length-take_of_le 16 b (omega arith)) in
    rw first at (accumulate-lt (take 16 b) 0 1 (take-IsBytes 16 b h) (omega arith))

pub low-lt : (b : Bytes) → IsBytes b → length b ≡ 32 → low b < 2 ^ 128
low-lt b h len =
    let rest : length (drop 16 b) ≡ 16 = omega (arith, length-drop_add 16 b (omega arith)) in
    rw rest at (accumulate-lt (drop 16 b) 0 1 (drop-IsBytes 16 b h) (omega arith))

pub halves_injective :
    (b c : Bytes)
    → IsBytes b
    → IsBytes c
    → length b ≡ 32
    → length c ≡ 32
    → high b ≡ high c
    → low b ≡ low c
    → b ≡ c
halves_injective b c hb hc lb lc eh el =
    take-drop_injective 16 b c
      (accumulate-injective (take 16 b) (take 16 c) 0 0
        (omega (arith, length-take_of_le 16 b (omega arith), length-take_of_le 16 c (omega arith)))
        (take-IsBytes 16 b hb) (take-IsBytes 16 c hc) eh).1
      (accumulate-injective (drop 16 b) (drop 16 c) 0 0
        (omega (arith, length-drop_add 16 b (omega arith), length-drop_add 16 c (omega arith)))
        (drop-IsBytes 16 b hb) (drop-IsBytes 16 c hc) el).1
