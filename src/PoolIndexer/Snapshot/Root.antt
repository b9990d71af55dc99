-- ===== src/PoolIndexer/Snapshot/Root.antt =====
-- infra/pool-indexer/src: hex text and the root that `/snapshot` serves.
use nido.Base.{◌<◌, ◌≡◌, refl, [], ◌∷◌, true, ok, ◌>>=◌, All, arith}
use nido.Base.Decimal.{Text}
use nido.Base.Hex.{IsHex, padded_hex, value-padded_hex, padded_hex-IsHex, length-padded_hex}
use nido.ZkRecovery.Field.{Fr, field_order}
use nido.PoolIndexer.Snapshot.{all_hex, strip_prefix, hex_to_fr, fr_to_hex}

all_hex-All : (s : Text) → All IsHex s → all_hex s ≡ true
unfolding all_hex
all_hex-All [] h = refl
all_hex-All (c ∷ s) (hc, h) = rw (hc, all_hex-All s h)

-- Every canonical element is read back from the text that it is served as.
pub hex_to_fr-fr_to_hex : (x : Fr) → x < field_order → (fr_to_hex x >>= hex_to_fr) ≡ ok x
unfolding fr_to_hex hex_to_fr strip_prefix
hex_to_fr-fr_to_hex x h = ground (
  arith,
  length-padded_hex 63 x (omega arith),
  all_hex-All (padded_hex 64 x) (padded_hex-IsHex 64 x),
  value-padded_hex 64 x,
)

pub hex_to_fr-lt : (hex : Text) (x : Fr) → hex_to_fr hex ≡ ok x → x < field_order
unfolding hex_to_fr
hex_to_fr-lt hex x h = ground arith
