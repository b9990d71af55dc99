-- ===== src/ZkActions/Circuit/Agreement.antt =====
-- zkRecoveryActions.ts: the inputs of the circuit determine the authorisation hash that is among them.
use nido.Base.{
  ℕ, ◌≡◌, refl, List, [], ◌∷◌, ◌++◌, map, Option, none, some, Result, ok, err, >>=-ok, arith,
}
use nido.Base.Decimal.{Text}
use nido.Base.Hex.{hex_value, value-to_hex}
use nido.ZkRecovery.Field.{Fr, Bytes, dom_auth, split16, u256_from_u64}
use nido.ZkRecovery.Poseidon.{PoseidonError, p2}
use nido.ZkRecovery.AuthHash.{field, arity, pubkey_inputs, auth_inputs, compute_auth_hash}
use nido.ZkActions.Circuit.{
  PubkeyFields, pubkey_fields, fr_to_noir_field, AssembleInputsArgs, NoirInputMap, auth_params,
  noir_inputs, assemble_circuit_inputs,
}

-- How the circuit reads an input: a number in hexadecimal behind `0x`.
abbrev pub noir_value : Text → Fr
noir_value [] = 0
noir_value (zero_digit ∷ []) = 0
noir_value (zero_digit ∷ x ∷ digits) = hex_value 0 digits

pub noir_value-fr_to_noir_field : (x : Fr) → noir_value (fr_to_noir_field x) ≡ x
unfolding fr_to_noir_field
noir_value-fr_to_noir_field x = value-to_hex x

values-fr_to_noir_field : (xs : List Fr) → map noir_value (map fr_to_noir_field xs) ≡ xs
values-fr_to_noir_field [] = refl
values-fr_to_noir_field (x ∷ xs) =
    rw (noir_value-fr_to_noir_field x, values-fr_to_noir_field xs) refl

-- The fifteen numbers that the circuit hashes, read from its inputs.
abbrev pub circuit_preimage : NoirInputMap → List Fr
circuit_preimage i =
    dom_auth
    ∷ noir_value i.action
    ∷ noir_value i.acct_hi
    ∷ noir_value i.acct_lo
    ∷ noir_value i.npass_hi
    ∷ noir_value i.npass_lo
    ∷ noir_value i.ctrl_hi
    ∷ noir_value i.ctrl_lo
    ∷ noir_value i.pk_prefix
    ∷ noir_value i.pk_x_hi
    ∷ noir_value i.pk_x_lo
    ∷ noir_value i.pk_y_hi
    ∷ noir_value i.pk_y_lo
    ∷ noir_value i.nonce
    ∷ noir_value i.timelock_secs
    ∷ []

abbrev pk_list : PubkeyFields → List Fr
pk_list pk = pk.pk_prefix ∷ pk.pk_x_hi ∷ pk.pk_x_lo ∷ pk.pk_y_hi ∷ pk.pk_y_lo ∷ []

-- The key's fields are the key's part of the hash's inputs.
pubkey_fields-pubkey_inputs :
    (key : Option Bytes) (pk : PubkeyFields)
    → pubkey_fields key ≡ ok pk
    → pubkey_inputs key ≡ ok (pk_list pk)
unfolding pubkey_fields pubkey_inputs
pubkey_fields-pubkey_inputs none pk e = cc
pubkey_fields-pubkey_inputs (some key) pk e = ground arith

u256_from_u64-eq-ok : (x y : ℕ) → field (u256_from_u64 x) ≡ ok y → y ≡ x
unfolding u256_from_u64
u256_from_u64-eq-ok x y e = ground arith

arity-eq-ok : (call : Result PoseidonError Fr) (h : Fr) → arity call ≡ ok h → call ≡ ok h
arity-eq-ok (ok x) h e = cc
arity-eq-ok (err e') h e = cc

-- The circuit's inputs carry the values of a call.
pub record IsInputs (a : AssembleInputsArgs) (i : NoirInputMap) : Type 0 where
  pub root_value : noir_value i.root ≡ a.root
  pub nullifier_value : noir_value i.nullifier ≡ a.nullifier
  pub secret_value : noir_value i.secret ≡ a.secret
  pub sibling_values : map noir_value i.path_siblings ≡ a.siblings
  pub bit_values : map noir_value i.path_bits ≡ a.bits

noir_inputs-IsInputs :
    (a : AssembleInputsArgs) (acct ctrl npass : Fr × Fr) (pk : PubkeyFields) (h : Fr)
    → IsInputs a (noir_inputs a acct ctrl npass pk h)
unfolding noir_inputs
noir_inputs-IsInputs a acct ctrl npass pk h = record {
  root_value = noir_value-fr_to_noir_field a.root;
  nullifier_value = noir_value-fr_to_noir_field a.nullifier;
  secret_value = noir_value-fr_to_noir_field a.secret;
  sibling_values = values-fr_to_noir_field a.siblings;
  bit_values = values-fr_to_noir_field a.bits;
}

auth_hash_value :
    (a : AssembleInputsArgs) (acct ctrl npass : Fr × Fr) (pk : PubkeyFields) (h : Fr)
    → noir_value (noir_inputs a acct ctrl npass pk h).auth_hash ≡ h
unfolding noir_inputs
auth_hash_value a acct ctrl npass pk h = noir_value-fr_to_noir_field h

circuit_preimage-noir_inputs :
    (a : AssembleInputsArgs) (acct ctrl npass : Fr × Fr) (pk : PubkeyFields) (h : Fr)
    → circuit_preimage (noir_inputs a acct ctrl npass pk h)
      ≡ dom_auth ∷ a.action ∷ acct.0 ∷ acct.1 ∷ npass.0 ∷ npass.1 ∷ ctrl.0 ∷ ctrl.1 ∷ pk_list pk
        ++ a.nonce ∷ a.timelock_secs ∷ []
unfolding noir_inputs fr_to_noir_field
circuit_preimage-noir_inputs a acct ctrl npass pk h = simp value-to_hex refl

module _ (poseidon2_hash : List Fr → Fr) (sha256 : Bytes → Bytes) (encode : Text → Bytes)
    (network_passphrase : Text) where
  -- The chain of the hash, from the parts that the assembly has read.
  auth_inputs-parts :
      (a : AssembleInputsArgs) (acct ctrl npass : Fr × Fr) (pk : PubkeyFields) (inputs : List Fr)
      → field (split16 a.account_id32) ≡ ok acct
      → field (split16 a.controller_id32) ≡ ok ctrl
      → field (split16 (sha256 (encode network_passphrase))) ≡ ok npass
      → pubkey_inputs a.new_pubkey65 ≡ ok (pk_list pk)
      → auth_inputs sha256 encode (auth_params network_passphrase a) ≡ ok inputs
      → inputs
        ≡ dom_auth ∷ a.action ∷ acct.0 ∷ acct.1 ∷ npass.0 ∷ npass.1 ∷ ctrl.0 ∷ ctrl.1 ∷ pk_list pk
          ++ a.nonce ∷ a.timelock_secs ∷ []
  unfolding auth_inputs
  auth_inputs-parts a acct ctrl npass pk inputs ha hc hn hk e =
      let (action, action_ok, e1) = >>=-ok (field (u256_from_u64 a.action)) _ e in
      let (nonce, nonce_ok, e2) =
        >>=-ok (field (u256_from_u64 a.nonce)) _ (rw (ha, hn, hc, hk) at e1) in
      let (timelock, timelock_ok, e3) = >>=-ok (field (u256_from_u64 a.timelock_secs)) _ e2 in
      let same_action = u256_from_u64-eq-ok a.action action action_ok in
      let same_nonce = u256_from_u64-eq-ok a.nonce nonce nonce_ok in
      let same_timelock = u256_from_u64-eq-ok a.timelock_secs timelock timelock_ok in cc

  agrees_from :
      (a : AssembleInputsArgs) (acct ctrl npass : Fr × Fr) (pk : PubkeyFields)
      (inputs : NoirInputMap) (preimage : List Fr) (h : Fr)
      → inputs ≡ noir_inputs a acct ctrl npass pk h
      → preimage
        ≡ dom_auth ∷ a.action ∷ acct.0 ∷ acct.1 ∷ npass.0 ∷ npass.1 ∷ ctrl.0 ∷ ctrl.1 ∷ pk_list pk
          ++ a.nonce ∷ a.timelock_secs ∷ []
      → p2 poseidon2_hash preimage ≡ ok h
      → compute_auth_hash poseidon2_hash sha256 encode (auth_params network_passphrase a) ≡ ok h
      → IsInputs a inputs
        × (noir_value inputs.auth_hash ≡ h)
        × (p2 poseidon2_hash (circuit_preimage inputs) ≡ ok h)
        × (compute_auth_hash poseidon2_hash sha256 encode (auth_params network_passphrase a) ≡ ok h)
  agrees_from a acct ctrl npass pk inputs preimage h same parts hash_ok hashed = rw same (
    noir_inputs-IsInputs a acct ctrl npass pk h,
    auth_hash_value a acct ctrl npass pk h,
    rw (circuit_preimage-noir_inputs a acct ctrl npass pk h, ← parts) hash_ok,
    hashed,
  )

  -- What `assembleCircuitInputs` gives the circuit carries the values of the call, and the circuit,
  -- hashing its own inputs, gets the authorisation hash that is among them and that is returned.
  pub assemble_circuit_inputs-Agrees :
      (a : AssembleInputsArgs) (inputs : NoirInputMap) (h : Fr)
      → assemble_circuit_inputs poseidon2_hash sha256 encode network_passphrase a ≡ ok (inputs, h)
      → IsInputs a inputs
        × (noir_value inputs.auth_hash ≡ h)
        × (p2 poseidon2_hash (circuit_preimage inputs) ≡ ok h)
        × (compute_auth_hash poseidon2_hash sha256 encode (auth_params network_passphrase a) ≡ ok h)
  unfolding assemble_circuit_inputs compute_auth_hash
  assemble_circuit_inputs-Agrees a inputs h e =
      let (acct, ha, e1) = >>=-ok (field (split16 a.account_id32)) _ e in
      let (ctrl, hc, e2) = >>=-ok (field (split16 a.controller_id32)) _ e1 in
      let (npass, hn, e3) = >>=-ok (field (split16 (sha256 (encode network_passphrase)))) _ e2 in
      let (pk, hk, e4) = >>=-ok (pubkey_fields a.new_pubkey65) _ e3 in
      let (hash, hashed, e5) =
        >>=-ok (compute_auth_hash poseidon2_hash sha256 encode (auth_params network_passphrase a)) _
          e4 in
      let (preimage, listed, hash_ok) =
        >>=-ok (auth_inputs sha256 encode (auth_params network_passphrase a)) _ hashed in
      let parts =
        auth_inputs-parts a acct ctrl npass pk preimage ha hc hn
          (pubkey_fields-pubkey_inputs a.new_pubkey65 pk hk) listed in
      let same_inputs : inputs ≡ noir_inputs a acct ctrl npass pk hash = cc in
      let same_hash : h ≡ hash = cc in
      rw same_hash (
        agrees_from a acct ctrl npass pk inputs preimage hash same_inputs parts
          (arity-eq-ok _ hash hash_ok) hashed)
