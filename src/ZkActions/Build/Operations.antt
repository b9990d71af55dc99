-- ===== src/ZkActions/Build/Operations.antt =====
-- recovery.ts: the operation of a transaction that its builders return.
use nido.Base.{ℕ, ◌≡◌, ap, ok, ◌>>◌, checks-ok}
use nido.Base.Texts.{codes}
use nido.ZkRecovery.Field.{Bytes}
use nido.ZkActions.Build.{
  ContractCall, initiate_recovery, cancel_recovery, burn_nullifier, TxBuild, ProofArgs,
  require_pubkey65, require_bytes32, build_initiate_recovery, build_cancel_recovery,
  build_burn_nullifier,
}

pub build_initiate_recovery-operation :
    (args : ProofArgs) (key : Bytes) (timelock : ℕ) (built : TxBuild)
    → build_initiate_recovery args key timelock ≡ ok built
    → built.operation
      ≡ initiate_recovery args.controller_id args.account key args.nonce timelock args.root
          args.nullifier args.proof
unfolding build_initiate_recovery
build_initiate_recovery-operation args key timelock built e =
    ap {B = ContractCall} (λ (b : TxBuild). b.operation)
      (checks-ok
        (require_pubkey65 key
          >> require_bytes32 args.root (codes "root")
          >> require_bytes32 args.nullifier (codes "nullifier"))
        _ built e)

pub build_cancel_recovery-operation :
    (args : ProofArgs) (built : TxBuild)
    → build_cancel_recovery args ≡ ok built
    → built.operation
      ≡ cancel_recovery args.controller_id args.account args.nonce args.root args.nullifier
          args.proof
unfolding build_cancel_recovery
build_cancel_recovery-operation args built e =
    ap {B = ContractCall} (λ (b : TxBuild). b.operation)
      (checks-ok
        (require_bytes32 args.root (codes "root")
          >> require_bytes32 args.nullifier (codes "nullifier"))
        _ built e)

pub build_burn_nullifier-operation :
    (args : ProofArgs) (built : TxBuild)
    → build_burn_nullifier args ≡ ok built
    → built.operation
      ≡ burn_nullifier args.controller_id args.account args.nonce args.root args.nullifier
          args.proof
unfolding build_burn_nullifier
build_burn_nullifier-operation args built e =
    ap {B = ContractCall} (λ (b : TxBuild). b.operation)
      (checks-ok
        (require_bytes32 args.root (codes "root")
          >> require_bytes32 args.nullifier (codes "nullifier"))
        _ built e)
