-- ===== src/ZkActions/Prove/Pinned.antt =====
-- prover.ts: what a proof that comes back is a proof of.
use nido.Base.{◌≡◌}
use nido.Money.{trim}
use nido.Policy.Rules.Resolve.{bytes_to_hex, to_lower_case}
use nido.ZkRecovery.Field.{Bytes}
use nido.ZkActions.Prove.{circuit_sha256, Toolchain}

-- A circuit that passes the check has the pinned digest, up to the case of the digits.
abbrev pub IsPinned : Toolchain → Bytes → Type 0
IsPinned tools circuit =
    to_lower_case (trim (bytes_to_hex (tools.sha256 circuit))) ≡ to_lower_case (trim circuit_sha256)
