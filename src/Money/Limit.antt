-- ===== src/Money/Limit.antt =====
-- packages/frontend/src/lib/spendingLimitParams.ts: the amount of a spending limit. The parameters of
-- the policy's installation are built by generated bindings.
use nido.Base.{
  ℕ, ◌↔◌, ◌∙◌, ap, sym, ◌*◌, ◌≤◌, ◌<◌, ◌≡◌, refl, Result, ok, err, ◌==◌, ltb, if◌then◌else◌, arith,
}
use nido.Base.Int.{pos}
use nido.Base.Decimal.{Text}
use nido.Money.{MoneyError, stroops_to_xlm, xlm_to_stroops}
use nido.Money.RoundTrip.{xlm_to_stroops-stroops_to_xlm}

pub data LimitPeriod : Type 0 where
  day week thirty_days : LimitPeriod

abbrev pub period_ledgers : LimitPeriod → ℕ
period_ledgers day = 17280
period_ledgers week = 120960
period_ledgers thirty_days = 518400

abbrev pub max_limit_xlm : ℕ
max_limit_xlm = 9999999

pub data LimitError : Type 0 where
  invalid_limit : Text → LimitError
  not_positive too_large : LimitError

unfoldable pub stroops_from_xlm : Text → Result LimitError ℕ
stroops_from_xlm xlm = elim (xlm_to_stroops xlm) [
  | err e ↦ err (invalid_limit xlm)
  | ok stroops ↦
      if stroops == 0
      then err not_positive
      else if ltb (max_limit_xlm * 10000000) stroops
      then err too_large
      else ok stroops
]

-- Every amount from one stroop to the highest limit is accepted as it is printed, and read back.
pub stroops_from_xlm-stroops_to_xlm :
    (n : ℕ)
    → 0 < n
    → n ≤ max_limit_xlm * 10000000
    → stroops_from_xlm (stroops_to_xlm (pos n)) ≡ ok n
unfolding stroops_from_xlm
stroops_from_xlm-stroops_to_xlm n lo hi =
    rw (xlm_to_stroops-stroops_to_xlm n, stroops_from_xlm) (ground arith)

-- An amount that is accepted is the one that `xlmToStroops` reads, above zero and at most the
-- highest limit.
stroops_from_xlm-le :
    (xlm : Text) (n : ℕ)
    → stroops_from_xlm xlm ≡ ok n
    → (xlm_to_stroops xlm ≡ ok n) × ((0 < n) × (n ≤ max_limit_xlm * 10000000))
unfolding stroops_from_xlm
stroops_from_xlm-le xlm n h = split (xlm_to_stroops xlm) refl h
  where
    split :
        (r : Result MoneyError ℕ)
        → xlm_to_stroops xlm ≡ r
        → stroops_from_xlm xlm ≡ ok n
        → (r ≡ ok n) × ((0 < n) × (n ≤ max_limit_xlm * 10000000))
    split (err e) k h = let clash = rw (k, stroops_from_xlm) at h in absurd (cc)
    split (ok s) k h = let made = rw (k, stroops_from_xlm) at h in ground arith

-- A limit that is printed from a number of stroops is accepted exactly when the number is above zero
-- and at most the highest limit, and then it is read back as that very number.
pub stroops_from_xlm-stroops_to_xlm_iff :
    (n m : ℕ)
    → (stroops_from_xlm (stroops_to_xlm (pos n)) ≡ ok m)
      ↔ ((m ≡ n) × (0 < n) × (n ≤ max_limit_xlm * 10000000))
stroops_from_xlm-stroops_to_xlm_iff n m = (accepted, printed)
  where
    accepted :
        stroops_from_xlm (stroops_to_xlm (pos n)) ≡ ok m
        → (m ≡ n) × (0 < n) × (n ≤ max_limit_xlm * 10000000)
    accepted e =
        let (read, (lo, hi)) = stroops_from_xlm-le (stroops_to_xlm (pos n)) m e in
        let back = xlm_to_stroops-stroops_to_xlm n in
        let same : m ≡ n = cc in (same, omega (arith, lo, same), omega (arith, hi, same))

    printed :
        (m ≡ n) × (0 < n) × (n ≤ max_limit_xlm * 10000000)
        → stroops_from_xlm (stroops_to_xlm (pos n)) ≡ ok m
    printed (same, lo, hi) = stroops_from_xlm-stroops_to_xlm n lo hi ∙ ap ok (sym same)
