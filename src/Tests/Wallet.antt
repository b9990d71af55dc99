-- ===== src/Tests/Wallet.antt =====
-- Amounts.
use nido.Base.{ℕ, ◌↔◌, ◌*◌, ◌≤◌, ◌<◌, ◌≡◌, refl, ok}
use nido.Base.Int.{pos, negsuc}
use nido.Base.Texts.{codes}
use nido.Base.Decimal.{to_decimal}
use nido.Money.{
  raw_to_decimal, stroops_to_xlm, xlm_to_stroops, decimal_to_raw, strip_zeros, trim, trim_start,
  trim_end, is_decimal, before_dot, after_dot, has_dot, all_digits,
}
use nido.Money.Limit.{stroops_from_xlm, max_limit_xlm, stroops_from_xlm-stroops_to_xlm_iff}
use nido.Money.RoundTrip.{decimal_to_raw-raw_to_decimal}

printed : stroops_to_xlm (negsuc 12500000) ≡ codes "-1.2500001"
unfolding stroops_to_xlm raw_to_decimal to_decimal strip_zeros
printed = refl

parsed : xlm_to_stroops (codes " 12.5 ") ≡ ok 125000000
unfolding xlm_to_stroops trim trim_start trim_end is_decimal before_dot after_dot has_dot all_digits
parsed = refl

decimal_to_raw-raw_to_decimal_example : decimal_to_raw (raw_to_decimal (pos 1050) 3) 3 ≡ ok 1050
decimal_to_raw-raw_to_decimal_example = decimal_to_raw-raw_to_decimal 1050 3

stroops_from_xlm-stroops_to_xlm_iff_example :
    (stroops_from_xlm (stroops_to_xlm (pos 1050)) ≡ ok 1050)
    ↔ ((◌≡◌ {A = ℕ} 1050 1050) × (◌<◌ 0 1050) × (1050 ≤ max_limit_xlm * 10000000))
stroops_from_xlm-stroops_to_xlm_iff_example = stroops_from_xlm-stroops_to_xlm_iff 1050 1050
