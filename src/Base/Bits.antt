-- ===== src/Base/Bits.antt =====
-- `x >> k` on numbers that are not negative, as repeated halving.
use Prim.Native.Nat.{ℕ, zero, suc, ◌*◌, ◌/◌, ◌^◌, ◌<◌}
use mathlib.Core.Path.{◌≡◌, refl, ap}
use native.Mathlib.Omega.{arith}
use native.Mathlib.Nat.{pow-suc}

unfoldable pub shr : ℕ → ℕ → ℕ
shr x zero = x
shr x (suc k) = shr x k / 2

-- A number below `2 ^ k` is shifted out by `k` places.
pub shr-lt_pow : (x k m : ℕ) → x < m * 2 ^ k → shr x k < m
unfolding shr
shr-lt_pow x zero m h = omega arith
shr-lt_pow x (suc k) m h =
    let h' : x < m * 2 * 2 ^ k = omega (arith, ap (λ (t : ℕ). m * t) (pow-suc 2 k)) in
    omega (arith, shr-lt_pow x k (m * 2) h')

pub shr-zero : (k : ℕ) → shr 0 k ≡ 0
unfolding shr
shr-zero zero = refl
shr-zero (suc k) = omega (arith, shr-zero k)
