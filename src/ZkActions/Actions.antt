-- ===== src/ZkActions/Actions.antt =====
-- zkRecoveryActions.ts: `initiateZkRecovery`, `cancelZkRecovery`, `burnZkNullifier`,
-- `completeZkRecovery` and `getZkPending`. A run says which call was ready to be submitted, what the
-- browser's storage holds after it, and what the function returns or throws.
pub mod Authorized
use nido.Base.{
  ℕ, ◌+◌, List, [], ◌∷◌, Option, none, some, Bool, not, Result, ok, err, ◌>>=◌, ◌==◌, if◌then◌else◌,
  length,
}
use nido.Base.Decimal.{Text}
use nido.Base.Texts.{codes}
use nido.ZkRecovery.Field.{Fr, Bytes, field_to_bytes32}
use nido.ZkRecovery.AuthHash.{wrap_leaf_inner, wrap_leaf_stored, compute_nullifier}
use nido.ZkRecovery.Poseidon.{hash_pair}
use nido.Policy.Rules.Resolve.{bytes_to_hex}
use nido.Signing.Entry.{
  AuthPayload, AuthEntry, signed_entry, default_expiration_offset, Encoding, get_auth_entry,
  no_entry,
}
use nido.Signing.Submit.{
  Transaction, SubmitError, entry_error, Network, relayer_enabled, source_account,
  simulated_entries, hand_over,
}
use nido.Signing.Owner.{Device, entry_result, relayer_expiration_offset, sign_and_submit}
use nido.ZkActions.Blob.{raw_proof_from_blob}
use nido.ZkActions.Circuit.{assemble_circuit_inputs}
use nido.ZkActions.Sync.{
  ActionError, leaf_not_found, field, auth, blob, build, prover, bad_key_length, submit, lift,
  Reads, fetch_registry_address, PoolWitness, sync_pool_and_locate,
}
use nido.ZkActions.Build.{
  ContractCall, ProofArgs, TxBuild, build_initiate_recovery, build_cancel_recovery,
  build_burn_nullifier, CompleteRecoveryArgs, build_complete_recovery,
}
use nido.ZkActions.Staged.{StagedRecovery, Storage, stage_recovery, clear_staged}
use nido.ZkActions.Prove.{Toolchain, prove}

abbrev pub testnet_zk_recovery_delay_secs : ℕ
testnet_zk_recovery_delay_secs = 60

-- What the actions call and read.
pub record World : Type 0 where
  pub poseidon2_hash : List Fr → Fr
  pub sha256 : Bytes → Bytes
  pub utf8 : Text → Bytes
  pub network_passphrase : Text
  pub reads : Reads
  pub tools : Toolchain
  pub network : Network ContractCall
  pub encoding : Encoding
  pub device : Device
  pub stringify : StagedRecovery → Text
  pub now : ℕ

-- What the chain and the pool say before a proof.
pub record Situation : Type 0 where
  pub controller_id : Text
  pub account_id32 : Bytes
  pub controller_id32 : Bytes
  pub witness : PoolWitness
  pub nonce : ℕ

unfoldable pub found : Option PoolWitness → Result ActionError PoolWitness
found none = err leaf_not_found
found (some w) = ok w

module _ (world : World) where
  unfoldable pub stored_leaf : Bytes → Fr → Result ActionError Fr
  stored_leaf account_id32 secret =
      lift auth (wrap_leaf_inner world.poseidon2_hash secret) >>= λ inner.
      lift auth (wrap_leaf_stored world.poseidon2_hash account_id32 inner)

  unfoldable pub locate : (account : Text) → Fr → Result ActionError Situation
  locate account secret = do
    controller_id ← fetch_registry_address world.reads (codes "zk-recovery")
    account_id32 ← world.reads.decode_contract account
    controller_id32 ← world.reads.decode_contract controller_id
    leaf ← stored_leaf account_id32 secret
    leaf32 ← lift field (field_to_bytes32 leaf)
    located ← sync_pool_and_locate (hash_pair world.poseidon2_hash) world.reads leaf32
    witness ← found located
    nonce ← world.reads.next_nonce controller_id account
    ok (record {
      controller_id = controller_id;
      account_id32 = account_id32;
      controller_id32 = controller_id32;
      witness = witness;
      nonce = nonce;
    })

  -- From the pool's witness to the proof.
  unfoldable pub prove_at :
      (action : ℕ)
      → Option Bytes
      → (timelock_secs : ℕ) → (account : Text) → Fr
      → Situation
      → Result ActionError ProofArgs
  prove_at action new_pubkey65 timelock_secs account secret s = do
    nullifier ← lift auth (compute_nullifier world.poseidon2_hash s.account_id32 secret)
    (inputs, auth_hash) ← lift auth (
        assemble_circuit_inputs world.poseidon2_hash world.sha256 world.utf8
          world.network_passphrase
          (record {
            action = action;
            account_id32 = s.account_id32;
            controller_id32 = s.controller_id32;
            secret = secret;
            root = s.witness.root;
            siblings = s.witness.siblings;
            bits = s.witness.bits;
            nullifier = nullifier;
            new_pubkey65 = new_pubkey65;
            nonce = s.nonce;
            timelock_secs = timelock_secs;
          }))
    made ← lift prover (prove world.tools (codes "zk_recovery") inputs)
    root32 ← lift field (field_to_bytes32 s.witness.root)
    nullifier32 ← lift field (field_to_bytes32 nullifier)
    proof ← lift blob (raw_proof_from_blob made)
    ok (record {
      controller_id = s.controller_id;
      account = account;
      nonce = s.nonce;
      root = root32;
      nullifier = nullifier32;
      proof = proof;
    })

  unfoldable pub prove_action :
      (action : ℕ)
      → Option Bytes
      → (timelock_secs : ℕ) → (account : Text) → Fr
      → Result ActionError ProofArgs
  prove_action action new_pubkey65 timelock_secs account secret =
      locate account secret >>= λ s. prove_at action new_pubkey65 timelock_secs account secret s

  unfoldable pub initiate_call :
      (account : Text) → Fr → (new_pubkey65 : Bytes) → Result ActionError ContractCall
  initiate_call account secret new_pubkey65 =
      if not (length new_pubkey65 == 65)
      then err (bad_key_length (length new_pubkey65))
      else prove_action 1 (some new_pubkey65) testnet_zk_recovery_delay_secs account secret
        >>= λ args.
            lift build (build_initiate_recovery args new_pubkey65 testnet_zk_recovery_delay_secs)
            >>= λ built. ok built.operation

  unfoldable pub build_owner_authed_proof_tx :
      (action : ℕ) → (account : Text) → Fr → Result ActionError ProofArgs
  build_owner_authed_proof_tx action account secret = prove_action action none 0 account secret

  unfoldable pub cancel_call : (account : Text) → Fr → Result ActionError ContractCall
  cancel_call account secret = build_owner_authed_proof_tx 2 account secret >>= λ args.
      lift build (build_cancel_recovery args) >>= λ built. ok built.operation

  unfoldable pub burn_call : (account : Text) → Fr → Result ActionError ContractCall
  burn_call account secret = build_owner_authed_proof_tx 3 account secret >>= λ args.
      lift build (build_burn_nullifier args) >>= λ built. ok built.operation

  -- The hash, and what the simulation returned.
  unfoldable pub submit_permissionless_op : ContractCall → Result SubmitError (Text × Option ℕ)
  submit_permissionless_op operation = do
    source ← source_account world.network
    (entries, (latest_ledger, retval)) ← simulated_entries world.network operation
    hash ←
        hand_over world.network
          (record { call = operation; auth = world.network.assemble operation entries })
    ok (hash, retval)

  unfoldable pub zero_signer_auth_payload : List ℕ → AuthPayload
  zero_signer_auth_payload context_rule_ids = record {
    context_rule_ids = context_rule_ids;
    signers = [];
  }

  -- The first entry of the assembled transaction gets the payload without signers.
  unfoldable pub zero_signer_entries :
      List AuthEntry → ℕ → List ℕ → Result SubmitError (List AuthEntry)
  zero_signer_entries [] last_ledger context_rule_ids = err (entry_error no_entry)
  zero_signer_entries (entry ∷ entries) last_ledger context_rule_ids = ok (
      signed_entry entry
        (last_ledger
          + (if relayer_enabled world.network
              then relayer_expiration_offset
              else default_expiration_offset))
        (zero_signer_auth_payload context_rule_ids)
      ∷ entries)

  unfoldable pub zero_signer_transaction :
      ContractCall → List ℕ → Result SubmitError (Transaction ContractCall)
  zero_signer_transaction operation context_rule_ids = do
    source ← source_account world.network
    (entries, (last_ledger, retval)) ← simulated_entries world.network operation
    first ← entry_result (get_auth_entry entries)
    signed ←
        zero_signer_entries (world.network.assemble operation entries) last_ledger context_rule_ids
    ok (record { call = operation; auth = signed })

  unfoldable pub submit_zero_signer_completion : ContractCall → List ℕ → Result SubmitError Text
  submit_zero_signer_completion operation context_rule_ids =
      zero_signer_transaction operation context_rule_ids >>= λ tx. hand_over world.network tx
