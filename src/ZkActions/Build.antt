-- ===== src/ZkActions/Build.antt =====
-- packages/passkey-sdk/src/zkRecovery/recovery.ts: the builders of the four operations, with the
-- arguments that they give the bindings; and enrollment.ts, with the builder of `insert_for` of
-- zkRecoveryActions.ts.
pub mod Operations
use nido.Base.{
  ℕ, List, [], ◌∷◌, ◌++◌, Option, none, Result, ok, err, ◌>>=◌, ◌>>◌, ◌==◌, ◌%◌, not, if◌then◌else◌,
  length,
}
use nido.Base.Decimal.{Text}
use nido.Base.Texts.{codes}
use nido.ZkRecovery.Field.{
  Fr, Bytes, FieldError, field_order, bytes_to_big_int_be, field_to_bytes32,
}
use nido.ZkRecovery.AuthHash.{AuthError, field, wrap_leaf_inner}

-- A call of a contract: its address, its method and its named arguments.
pub data ContractCall : Type 0 where
  initiate_recovery :
      (controller_id account : Text) (new_pubkey : Bytes) (nonce timelock_secs : ℕ)
      (root nullifier proof : Bytes)
      → ContractCall
  cancel_recovery :
      (controller_id account : Text) (nonce : ℕ) (root nullifier proof : Bytes) → ContractCall
  burn_nullifier :
      (controller_id account : Text) (nonce : ℕ) (root nullifier proof : Bytes) → ContractCall
  add_context_rule :
      (account context_type name : Text) (valid_until : Option ℕ) (signers : List (Text × Bytes))
      (policies : List (Text × Bytes))
      → ContractCall
  insert_for : (controller_id account : Text) (commitment : Bytes) → ContractCall

pub data BuildError : Type 0 where
  bad_pubkey_length : ℕ → BuildError
  bad_bytes32 : (argument : Text) (length : ℕ) → BuildError

pub record TxBuild : Type 0 where
  pub operation : ContractCall
  pub description : Text

pub record ProofArgs : Type 0 where
  pub controller_id : Text
  pub account : Text
  pub nonce : ℕ
  pub root : Bytes
  pub nullifier : Bytes
  pub proof : Bytes

unfoldable pub require_pubkey65 : Bytes → Result BuildError (Unit {0})
require_pubkey65 key =
    if not (length key == 65) then err (bad_pubkey_length (length key)) else ok tt

unfoldable pub require_bytes32 : Bytes → Text → Result BuildError (Unit {0})
require_bytes32 value argument =
    if not (length value == 32) then err (bad_bytes32 argument (length value)) else ok tt

unfoldable pub build_initiate_recovery :
    ProofArgs → (new_pubkey65 : Bytes) (timelock_secs : ℕ) → Result BuildError TxBuild
build_initiate_recovery args new_pubkey65 timelock_secs =
    require_pubkey65 new_pubkey65
    >> require_bytes32 args.root (codes "root")
    >> require_bytes32 args.nullifier (codes "nullifier")
    >> ok (record {
      operation =
          initiate_recovery args.controller_id args.account new_pubkey65 args.nonce timelock_secs
            args.root args.nullifier args.proof;
      description = codes "Initiate account recovery";
    })

unfoldable pub build_cancel_recovery : ProofArgs → Result BuildError TxBuild
build_cancel_recovery args =
    require_bytes32 args.root (codes "root")
    >> require_bytes32 args.nullifier (codes "nullifier")
    >> ok (record {
      operation =
          cancel_recovery args.controller_id args.account args.nonce args.root args.nullifier
            args.proof;
      description = codes "Cancel pending account recovery";
    })

unfoldable pub build_burn_nullifier : ProofArgs → Result BuildError TxBuild
build_burn_nullifier args =
    require_bytes32 args.root (codes "root")
    >> require_bytes32 args.nullifier (codes "nullifier")
    >> ok (record {
      operation =
          burn_nullifier args.controller_id args.account args.nonce args.root args.nullifier
            args.proof;
      description = codes "Burn compromised nullifier";
    })

pub record CompleteRecoveryArgs : Type 0 where
  pub account : Text
  pub recovery_rule_id : ℕ
  pub new_pubkey65 : Bytes
  pub webauthn_verifier_id : Text

pub record CompleteRecoveryTxBuild : Type 0 where
  pub operation : ContractCall
  pub description : Text
  pub context_rule_ids : List ℕ

unfoldable pub build_complete_recovery :
    CompleteRecoveryArgs → Result BuildError CompleteRecoveryTxBuild
build_complete_recovery args =
    require_pubkey65 args.new_pubkey65
    >> ok (record {
      operation =
          add_context_rule args.account (codes "Default") (codes "recovered") none
            ((args.webauthn_verifier_id, args.new_pubkey65) ∷ []) [];
      description = codes "Complete account recovery (install recovered passkey)";
      context_rule_ids = args.recovery_rule_id ∷ [];
    })

module _ (poseidon2_hash : List Fr → Fr) where
  unfoldable pub commitment_for_creation : Fr → Result AuthError Bytes
  commitment_for_creation secret =
      wrap_leaf_inner poseidon2_hash secret >>= λ inner. field (field_to_bytes32 inner)

  unfoldable pub enroll_at_creation : Fr → Result AuthError Bytes
  enroll_at_creation secret = commitment_for_creation secret

  -- The account is not an input of the commitment.
  unfoldable pub build_migration_enroll : Text → Fr → Result AuthError Bytes
  build_migration_enroll account secret = commitment_for_creation secret

  unfoldable pub build_migration_enroll_tx : Text → Text → Fr → Result AuthError TxBuild
  build_migration_enroll_tx controller_id account secret =
      commitment_for_creation secret >>= λ commitment. ok (record {
        operation = insert_for controller_id account commitment;
        description = codes "Enroll a new ZK-recovery secret";
      })

unfoldable pub dummy_commitment :
    (sha256 : Bytes → Bytes) → (salt_bytes : Bytes) → Result FieldError Bytes
dummy_commitment sha256 salt_bytes =
    if not (length salt_bytes == 32)
    then err (FieldError.bad_length (length salt_bytes))
    else field_to_bytes32
        (bytes_to_big_int_be (sha256 (codes "nido-zk-dummy" ++ salt_bytes)) % field_order)
