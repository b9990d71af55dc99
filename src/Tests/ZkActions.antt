-- ===== src/Tests/ZkActions.antt =====
-- The actions of ZK recovery in the world of ZkRun.
use nido.Base.{◌≡◌, refl, ap, [], ◌∷◌, Option, none, some, true, ok, length, arith}
use nido.Base.Decimal.{Text}
use nido.Base.Texts.{codes}
use nido.ZkActions.Blob.{
  uint32_be, get_uint32_be, public_bytes, build_proof_blob, raw_proof_from_blob,
}
use nido.ZkActions.Chain.{leaf_of, leaves_of, ledger_of, is_last, scan, fetch_leaves_from_chain}
use nido.ZkActions.Circuit.{pubkey_fields, fr_to_noir_field, noir_inputs, assemble_circuit_inputs}
use nido.ZkActions.Sync.{
  fetch_registry_address, fetch_current_root_fr, with_root, incoming_leaves, locate_verified,
  sync_pool_and_locate,
}
use nido.ZkActions.Build.{
  require_pubkey65, require_bytes32, build_initiate_recovery, build_cancel_recovery,
  build_complete_recovery,
}
use nido.ZkActions.Prove.{
  manifest_check, encode_field_be, hex_to_bytes, verify_and_parse_circuit, run_prove, prove,
}
use nido.ZkActions.Actions.{
  found, stored_leaf, locate, prove_at, prove_action, initiate_call, build_owner_authed_proof_tx,
  cancel_call, submit_permissionless_op, zero_signer_auth_payload, zero_signer_entries,
  zero_signer_transaction, submit_zero_signer_completion,
}
use nido.ZkActions.Runs.{
  after_initiate, initiate_zk_recovery, then_clear, owner_submit, cancel_zk_recovery,
  complete_zk_recovery, staged_by,
}
use nido.Signing.Der.{
  is_byte, pad_or_trim_to32, buf_to_big_int, signed_pairs, difference_to_buf32, low_s, compact_of,
  raw_at, read_s, der_to_compact,
}
use nido.Signing.Entry.{
  build_auth_hash_at, build_auth_hash, compute_auth_digest, build_auth_payload,
  inject_signed_auth_payload, inject_passkey_signature, get_auth_entry, parse_assertion_response,
}
use nido.Signing.Submit.{
  relayer_enabled, confirmed_hash, relayer_submit_and_confirm, poll_status, classic_submit_and_poll,
  source_account, hand_over, simulated_entries,
}
use nido.Signing.Owner.{
  credential_of, rule_of, assertion_of, challenge_of, sign_entries, sign_call, sign_and_submit,
}
use nido.Signing.Pairs.{hex_pairs}
use nido.ZkRecovery.Field.{
  emit_be, bytes_to_big_int_be, split16, u256_from_u64, field_to_bytes32, bytes_to_field_canonical,
}
use nido.ZkRecovery.Poseidon.{p2, hash_pair}
use nido.ZkRecovery.Merkle.{
  insert, bits_from, zeros, next_from, next_layer, layer_at, root, siblings_from, path_for, bit_at,
}
use nido.ZkRecovery.PoolSync.{
  bytes_equal, get, collect, insert_index, sort, check_contiguous, entry, merge_leaves,
  insert_leaves, locate_from, rebuild_root, verify_against_on_chain_root, witness_at, locate_leaf,
}
use nido.ZkRecovery.AuthHash.{
  pubkey_inputs, wrap_leaf_inner, wrap_leaf_stored, compute_nullifier, auth_inputs,
  compute_auth_hash,
}
use nido.Base.Hex.{hex_digit, digit_value, hex_from, to_hex, padded_hex}
use nido.Base.Sort.{insert_by, sort_by}
use nido.Base.{shr}
use nido.Policy.Rules.Resolve.{
  bytes_to_hex, to_lower_case, verifier_for, signer_rule_of, resolve_from, resolve_signer_rule,
}
use nido.Money.{trim_start, trim_end, trim}
use nido.Recovery.Submit.{poll}
use nido.ZkRecovery.PoolSync.{Leaf}
use nido.ZkRecovery.PoolSync.Merge.{length-merge_leaves}
use nido.ZkActions.Build.{
  ContractCall, ProofArgs, initiate_recovery, cancel_recovery, CompleteRecoveryArgs,
  add_context_rule,
}
use nido.ZkActions.Staged.{Storage}
use nido.ZkActions.Actions.Authorized.{IsAuthorized, IsSmall}
use nido.ZkActions.Runs.Submitted.{
  initiate_zk_recovery-IsAuthorized, IsHandedOver, cancel_zk_recovery-IsAuthorized,
}
use nido.ZkActions.Runs.Completed.{IsZeroSigner, complete_zk_recovery-IsZeroSigner}
use nido.Signing.Submit.{Transaction}
use nido.ZkActions.Staged.{StagedRecovery}
use nido.Tests.ZkRun.{world, reads, account, secret, key, leaf}

abbrev storage : Storage
storage = record { items = some []; readable = true; writable = true }

abbrev own_leaf : Leaf
own_leaf = record { index = 0; leaf = emit_be 32 leaf [] }

world-IsSmall : IsSmall world
world-IsSmall controller_id merged snapshot =
    let read = snapshot.read in
    let given : incoming_leaves reads controller_id ≡ ok (own_leaf ∷ []) = computed controller_id in
    let same : snapshot.incoming ≡ own_leaf ∷ [] = cc in
    omega (
      arith,
      length-merge_leaves [] snapshot.incoming merged snapshot.merge,
      ap (length {A = Leaf}) same,
    )
  where
    computed : (controller_id : Text) → incoming_leaves reads controller_id ≡ ok (own_leaf ∷ [])
    computed controller_id =
        unfold incoming_leaves fetch_leaves_from_chain scan leaves_of leaf_of is_last sort_by
          insert_by in
        refl

abbrev initiated : ContractCall
initiated =
    initiate_recovery (codes "CPOOL") account key 0 60
      (32 ∷ 3 ∷ 79 ∷ 64 ∷ 96 ∷ 226 ∷ 23 ∷ 25 ∷ 151 ∷ 76 ∷ 34 ∷ 82 ∷ 129 ∷ 197 ∷ 254 ∷ 199 ∷ 23 ∷ 7
        ∷ 98 ∷ 58 ∷ 251 ∷ 143 ∷ 209 ∷ 75 ∷ 6 ∷ 60 ∷ 28 ∷ 154 ∷ 208 ∷ 44 ∷ 108 ∷ 61 ∷ [])
      (19 ∷ 136 ∷ 145 ∷ 204 ∷ 7 ∷ 245 ∷ 45 ∷ 46 ∷ 194 ∷ 158 ∷ 131 ∷ 82 ∷ 152 ∷ 174 ∷ 33 ∷ 33 ∷ 197
        ∷ 242 ∷ 112 ∷ 87 ∷ 221 ∷ 193 ∷ 85 ∷ 112 ∷ 81 ∷ 158 ∷ 197 ∷ 18 ∷ 138 ∷ 37 ∷ 44 ∷ 59 ∷ [])
      (9 ∷ 8 ∷ [])

submitted_initiate :
    (initiate_zk_recovery world storage account secret key).submitted ≡ some initiated
submitted_initiate =
    unfold uint32_be get_uint32_be public_bytes build_proof_blob raw_proof_from_blob leaf_of
      leaves_of ledger_of is_last scan fetch_leaves_from_chain pubkey_fields fr_to_noir_field
      noir_inputs assemble_circuit_inputs fetch_registry_address fetch_current_root_fr with_root
      incoming_leaves locate_verified sync_pool_and_locate require_pubkey65 require_bytes32
      build_initiate_recovery build_cancel_recovery build_complete_recovery manifest_check
      encode_field_be hex_to_bytes verify_and_parse_circuit run_prove prove found stored_leaf locate
      prove_at prove_action initiate_call build_owner_authed_proof_tx cancel_call
      submit_permissionless_op zero_signer_auth_payload zero_signer_entries zero_signer_transaction
      submit_zero_signer_completion after_initiate initiate_zk_recovery then_clear owner_submit
      cancel_zk_recovery complete_zk_recovery staged_by is_byte pad_or_trim_to32 buf_to_big_int
      signed_pairs difference_to_buf32 low_s compact_of raw_at read_s der_to_compact
      build_auth_hash_at build_auth_hash compute_auth_digest build_auth_payload
      inject_signed_auth_payload inject_passkey_signature get_auth_entry parse_assertion_response
      relayer_enabled confirmed_hash relayer_submit_and_confirm poll_status classic_submit_and_poll
      source_account hand_over simulated_entries credential_of rule_of assertion_of challenge_of
      sign_entries sign_call sign_and_submit hex_pairs bytes_to_big_int_be split16 u256_from_u64
      field_to_bytes32 bytes_to_field_canonical p2 hash_pair insert bits_from zeros next_from
      next_layer layer_at root siblings_from path_for bit_at bytes_equal get collect insert_index
      sort check_contiguous entry merge_leaves insert_leaves locate_from rebuild_root
      verify_against_on_chain_root witness_at locate_leaf pubkey_inputs wrap_leaf_inner
      wrap_leaf_stored compute_nullifier auth_inputs compute_auth_hash hex_digit digit_value
      hex_from to_hex padded_hex insert_by sort_by shr bytes_to_hex to_lower_case verifier_for
      signer_rule_of resolve_from resolve_signer_rule trim_start trim_end trim poll in
    refl

initiate_zk_recovery-IsAuthorized_example :
    (args : ProofArgs) × IsAuthorized world 1 (some key) 60 account secret args
    × (length key ≡ 65)
    × (initiated
        ≡ initiate_recovery args.controller_id account key args.nonce 60 args.root args.nullifier
            args.proof)
initiate_zk_recovery-IsAuthorized_example =
    initiate_zk_recovery-IsAuthorized world storage account secret key initiated world-IsSmall
      submitted_initiate

returned_cancel : (cancel_zk_recovery world storage account secret).result ≡ ok (codes "hash")
returned_cancel =
    unfold uint32_be get_uint32_be public_bytes build_proof_blob raw_proof_from_blob leaf_of
      leaves_of ledger_of is_last scan fetch_leaves_from_chain pubkey_fields fr_to_noir_field
      noir_inputs assemble_circuit_inputs fetch_registry_address fetch_current_root_fr with_root
      incoming_leaves locate_verified sync_pool_and_locate require_pubkey65 require_bytes32
      build_initiate_recovery build_cancel_recovery build_complete_recovery manifest_check
      encode_field_be hex_to_bytes verify_and_parse_circuit run_prove prove found stored_leaf locate
      prove_at prove_action initiate_call build_owner_authed_proof_tx cancel_call
      submit_permissionless_op zero_signer_auth_payload zero_signer_entries zero_signer_transaction
      submit_zero_signer_completion after_initiate initiate_zk_recovery then_clear owner_submit
      cancel_zk_recovery complete_zk_recovery staged_by is_byte pad_or_trim_to32 buf_to_big_int
      signed_pairs difference_to_buf32 low_s compact_of raw_at read_s der_to_compact
      build_auth_hash_at build_auth_hash compute_auth_digest build_auth_payload
      inject_signed_auth_payload inject_passkey_signature get_auth_entry parse_assertion_response
      relayer_enabled confirmed_hash relayer_submit_and_confirm poll_status classic_submit_and_poll
      source_account hand_over simulated_entries credential_of rule_of assertion_of challenge_of
      sign_entries sign_call sign_and_submit hex_pairs bytes_to_big_int_be split16 u256_from_u64
      field_to_bytes32 bytes_to_field_canonical p2 hash_pair insert bits_from zeros next_from
      next_layer layer_at root siblings_from path_for bit_at bytes_equal get collect insert_index
      sort check_contiguous entry merge_leaves insert_leaves locate_from rebuild_root
      verify_against_on_chain_root witness_at locate_leaf pubkey_inputs wrap_leaf_inner
      wrap_leaf_stored compute_nullifier auth_inputs compute_auth_hash hex_digit digit_value
      hex_from to_hex padded_hex insert_by sort_by shr bytes_to_hex to_lower_case verifier_for
      signer_rule_of resolve_from resolve_signer_rule trim_start trim_end trim poll in
    refl

cancel_zk_recovery-IsAuthorized_example :
    (args : ProofArgs) × IsAuthorized world 2 none 0 account secret args
    × IsHandedOver world account
        (cancel_recovery args.controller_id account args.nonce args.root args.nullifier args.proof)
        (codes "hash")
cancel_zk_recovery-IsAuthorized_example =
    cancel_zk_recovery-IsAuthorized world storage account secret (codes "hash") world-IsSmall
      (λ call entries. refl) returned_cancel

abbrev completion : CompleteRecoveryArgs
completion = record {
  account = account;
  recovery_rule_id = 2;
  new_pubkey65 = key;
  webauthn_verifier_id = codes "CVERIFIER";
}

returned_complete : (complete_zk_recovery world storage completion).result ≡ ok (codes "hash")
returned_complete =
    unfold uint32_be get_uint32_be public_bytes build_proof_blob raw_proof_from_blob leaf_of
      leaves_of ledger_of is_last scan fetch_leaves_from_chain pubkey_fields fr_to_noir_field
      noir_inputs assemble_circuit_inputs fetch_registry_address fetch_current_root_fr with_root
      incoming_leaves locate_verified sync_pool_and_locate require_pubkey65 require_bytes32
      build_initiate_recovery build_cancel_recovery build_complete_recovery manifest_check
      encode_field_be hex_to_bytes verify_and_parse_circuit run_prove prove found stored_leaf locate
      prove_at prove_action initiate_call build_owner_authed_proof_tx cancel_call
      submit_permissionless_op zero_signer_auth_payload zero_signer_entries zero_signer_transaction
      submit_zero_signer_completion after_initiate initiate_zk_recovery then_clear owner_submit
      cancel_zk_recovery complete_zk_recovery staged_by is_byte pad_or_trim_to32 buf_to_big_int
      signed_pairs difference_to_buf32 low_s compact_of raw_at read_s der_to_compact
      build_auth_hash_at build_auth_hash compute_auth_digest build_auth_payload
      inject_signed_auth_payload inject_passkey_signature get_auth_entry parse_assertion_response
      relayer_enabled confirmed_hash relayer_submit_and_confirm poll_status classic_submit_and_poll
      source_account hand_over simulated_entries credential_of rule_of assertion_of challenge_of
      sign_entries sign_call sign_and_submit hex_pairs bytes_to_big_int_be split16 u256_from_u64
      field_to_bytes32 bytes_to_field_canonical p2 hash_pair insert bits_from zeros next_from
      next_layer layer_at root siblings_from path_for bit_at bytes_equal get collect insert_index
      sort check_contiguous entry merge_leaves insert_leaves locate_from rebuild_root
      verify_against_on_chain_root witness_at locate_leaf pubkey_inputs wrap_leaf_inner
      wrap_leaf_stored compute_nullifier auth_inputs compute_auth_hash hex_digit digit_value
      hex_from to_hex padded_hex insert_by sort_by shr bytes_to_hex to_lower_case verifier_for
      signer_rule_of resolve_from resolve_signer_rule trim_start trim_end trim poll in
    refl

complete_zk_recovery-IsZeroSigner_example :
    (tx : Transaction ContractCall) × IsZeroSigner world
      (add_context_rule account
        (codes "Default")
        (codes "recovered")
        none
        ((codes "CVERIFIER", key) ∷ [])
        [])
      2
      tx
    × (hand_over world.network tx ≡ ok (codes "hash"))
complete_zk_recovery-IsZeroSigner_example =
    complete_zk_recovery-IsZeroSigner world storage completion (codes "hash") returned_complete

abbrev parse_note : Text → Option StagedRecovery
parse_note [] = none
parse_note (a ∷ []) = none
parse_note (a ∷ b ∷ digits) =
    some (record { new_pubkey65_hex = digits; initiated_at = a; executable_after = b })
