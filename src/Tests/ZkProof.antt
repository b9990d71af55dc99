-- ===== src/Tests/ZkProof.antt =====
-- The inputs of the circuit and the proof in the world of ZkRun.
use nido.Base.{◌≡◌, refl, [], ◌∷◌, ◌++◌, some, ok, replicate}
use nido.Base.Texts.{codes}
use nido.ZkActions.Circuit.{pubkey_fields, noir_inputs, assemble_circuit_inputs}
use nido.ZkRecovery.Field.{
  Fr, Bytes, dom_auth, emit_be, bytes_to_big_int_be, split16, u256_from_u64,
}
use nido.ZkRecovery.Poseidon.{p2}
use nido.ZkRecovery.AuthHash.{pubkey_inputs, auth_inputs, compute_auth_hash}
use nido.ZkActions.Circuit.{PubkeyFields, AssembleInputsArgs, NoirInputMap, auth_params}
use nido.ZkActions.Circuit.Agreement.{
  IsInputs, noir_value, circuit_preimage, assemble_circuit_inputs-Agrees,
}
use nido.Tests.ZkRun.{toy_poseidon, half, account32, controller32, secret, key}

abbrev inputs_args : AssembleInputsArgs
inputs_args = record {
  action = 1;
  account_id32 = account32;
  controller_id32 = controller32;
  secret = secret;
  root = 5;
  siblings = 1 ∷ 2 ∷ [];
  bits = 0 ∷ 1 ∷ [];
  nullifier = 6;
  new_pubkey65 = some key;
  nonce = 3;
  timelock_secs = 60;
}

abbrev pubkey : PubkeyFields
pubkey = record {
  pk_prefix = 4;
  pk_x_hi = half 1;
  pk_x_lo = half 1;
  pk_y_hi = half 1;
  pk_y_lo = half 1;
}

abbrev hashed : Fr
hashed = toy_poseidon (
    dom_auth
    ∷ 1
    ∷ half 5
    ∷ half 5
    ∷ half 7
    ∷ half 7
    ∷ half 6
    ∷ half 6
    ∷ 4
    ∷ half 1
    ∷ half 1
    ∷ half 1
    ∷ half 1
    ∷ 3
    ∷ 60
    ∷ [])

abbrev inputs : NoirInputMap
inputs = noir_inputs inputs_args (half 5, half 5) (half 6, half 6) (half 7, half 7) pubkey hashed

assemble_circuit_inputs-Agrees_example :
    IsInputs inputs_args inputs
    × (noir_value inputs.auth_hash ≡ hashed)
    × (p2 toy_poseidon (circuit_preimage inputs) ≡ ok hashed)
    × (compute_auth_hash toy_poseidon
          (λ bytes. replicate 32 7)
          (λ text. text)
          (auth_params (codes "Test") inputs_args)
        ≡ ok hashed)
assemble_circuit_inputs-Agrees_example =
    assemble_circuit_inputs-Agrees toy_poseidon (λ bytes. replicate 32 7) (λ text. text)
      (codes "Test") inputs_args inputs hashed run
  where
    run :
        assemble_circuit_inputs toy_poseidon
          (λ bytes. replicate 32 7)
          (λ text. text)
          (codes "Test")
          inputs_args
        ≡ ok (inputs, hashed)
    run =
        unfold assemble_circuit_inputs pubkey_fields compute_auth_hash auth_inputs pubkey_inputs
          split16 u256_from_u64 p2 bytes_to_big_int_be in
        refl

abbrev proof_blob : Bytes
proof_blob = 0 ∷ 0 ∷ 0 ∷ 3 ∷ emit_be 32 1 [] ++ emit_be 32 2 [] ++ emit_be 32 3 [] ++ 9 ∷ 8 ∷ []
