-- ===== src/ZkActions/Runs.antt =====
-- zkRecoveryActions.ts: the four actions as runs, and the read of a pending recovery. A run says which
-- call was submitted, what the browser's storage holds after it, and what the function returns or
-- throws.
pub mod Submitted
pub mod Note
pub mod Completed
use nido.Base.{ℕ, List, [], Option, none, some, Result, ok, err, ◌>>=◌, if◌then◌else◌}
use nido.Base.Decimal.{Text}
use nido.Base.Texts.{codes}
use nido.ZkRecovery.Field.{Fr, Bytes}
use nido.Policy.Rules.Resolve.{bytes_to_hex}
use nido.Signing.Submit.{SubmitError}
use nido.Signing.Owner.{sign_and_submit}
use nido.ZkActions.Sync.{ActionError, build, submit, lift, Reads, fetch_registry_address}
use nido.ZkActions.Build.{
  ContractCall, CompleteRecoveryArgs, CompleteRecoveryTxBuild, build_complete_recovery,
}
use nido.ZkActions.Staged.{StagedRecovery, Storage, stage_recovery, clear_staged}
use nido.ZkActions.Actions.{
  World, initiate_call, cancel_call, burn_call, submit_permissionless_op,
  submit_zero_signer_completion,
}

pub record ActionRun (A : Type 0) : Type 0 where
  pub submitted : Option ContractCall
  pub storage : Storage
  pub result : Result ActionError A

pub record InitiateZkRecoveryResult : Type 0 where
  pub tx_hash : Text
  pub executable_after : ℕ

abbrev pub refused : {A : Type 0} → Storage → ActionError → ActionRun A
refused storage e = record { submitted = none; storage = storage; result = err e }

abbrev pub failed_with : {A : Type 0} → ContractCall → Storage → SubmitError → ActionRun A
failed_with call storage e = record {
  submitted = some call;
  storage = storage;
  result = err (submit e);
}

-- `retval ? Number(scValToNative(retval)) : 0`.
abbrev pub or_zero : Option ℕ → ℕ
or_zero none = 0
or_zero (some n) = n

module _ (world : World) where
  unfoldable pub staged_by : Bytes → ℕ → StagedRecovery
  staged_by new_pubkey65 executable_after = record {
    new_pubkey65_hex = bytes_to_hex new_pubkey65;
    initiated_at = world.now;
    executable_after = executable_after;
  }

  unfoldable pub after_initiate :
      Storage
      → (account : Text) → (new_pubkey65 : Bytes) → ContractCall
      → Result SubmitError (Text × Option ℕ)
      → ActionRun InitiateZkRecoveryResult
  after_initiate storage account new_pubkey65 call (err e) = failed_with call storage e
  after_initiate storage account new_pubkey65 call (ok (hash, retval)) = record {
    submitted = some call;
    storage =
        stage_recovery world.stringify storage account (staged_by new_pubkey65 (or_zero retval));
    result = ok (record { tx_hash = hash; executable_after = or_zero retval });
  }

  unfoldable pub initiate_zk_recovery :
      Storage → (account : Text) → Fr → (new_pubkey65 : Bytes) → ActionRun InitiateZkRecoveryResult
  initiate_zk_recovery storage account secret new_pubkey65 =
      elim (initiate_call world account secret new_pubkey65) [
        | err e ↦ refused storage e
        | ok call ↦
            after_initiate storage account new_pubkey65 call (submit_permissionless_op world call)
      ]

  -- The end of the other actions: the note is cleared after a submission that returns.
  unfoldable pub then_clear :
      Storage → (account : Text) → ContractCall → Result SubmitError Text → ActionRun Text
  then_clear storage account call (err e) = failed_with call storage e
  then_clear storage account call (ok hash) = record {
    submitted = some call;
    storage = clear_staged storage account;
    result = ok hash;
  }

  -- `signAndSubmit`, of which only the hash is used.
  unfoldable pub owner_submit : (account : Text) → ContractCall → Result SubmitError Text
  owner_submit account call =
      sign_and_submit world.encoding world.network_passphrase world.network world.device account
        none call
      >>= λ (hash, digest). ok hash

  abbrev pub owner_run :
      Storage → (account : Text) → Result ActionError ContractCall → ActionRun Text
  owner_run storage account (err e) = refused storage e
  owner_run storage account (ok call) = then_clear storage account call (owner_submit account call)

  unfoldable pub cancel_zk_recovery : Storage → (account : Text) → Fr → ActionRun Text
  cancel_zk_recovery storage account secret =
      owner_run storage account (cancel_call world account secret)

  unfoldable pub burn_zk_nullifier : Storage → (account : Text) → Fr → ActionRun Text
  burn_zk_nullifier storage account secret =
      owner_run storage account (burn_call world account secret)

  unfoldable pub complete_zk_recovery : Storage → CompleteRecoveryArgs → ActionRun Text
  complete_zk_recovery storage args = elim (build_complete_recovery args) [
    | err e ↦ refused storage (build e)
    | ok built ↦
        then_clear storage args.account built.operation
          (submit_zero_signer_completion world built.operation built.context_rule_ids)
  ]

-- The native form of `Option<PendingRecovery>`, whose fields may be missing.
pub record NativePending : Type 0 where
  pub new_pubkey : Option Bytes
  pub executable_after : Option ℕ
  pub expires_at : Option ℕ

pub record ZkPending : Type 0 where
  pub executable_after : ℕ
  pub expires_at : ℕ
  pub new_pubkey65 : Bytes

-- The record of a view's answer; missing numbers are 0, and a missing key is empty.
unfoldable pub pending_of : Option NativePending → Option ZkPending
pending_of none = none
pending_of (some native) = some (record {
  executable_after = or_zero native.executable_after;
  expires_at = or_zero native.expires_at;
  new_pubkey65 = elim native.new_pubkey [ none ↦ [] | some key ↦ key ];
})

unfoldable pub get_zk_pending :
    Reads
    → (view : Text → Text → Result ActionError (Option NativePending)) → (account : Text)
    → Result ActionError (Option ZkPending)
get_zk_pending reads view account =
    fetch_registry_address reads (codes "zk-recovery") >>= λ controller_id.
    view controller_id account >>= λ native. ok (pending_of native)
