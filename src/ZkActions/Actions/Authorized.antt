-- ===== src/ZkActions/Actions/Authorized.antt =====
-- zkRecoveryActions.ts: what the arguments of a proof are arguments of.
use nido.Base.{
  ℕ, ◌≡◌, ◌≤◌, ◌^◌, ◌<◌, refl, ap, ◌∙◌, inl, inr, List, Option, none, some, Result, ok, err, >>=-ok,
  length, Bool-cases, leb, arith,
}
use mathlib.Core.Path.{subst}
use nido.Base.Decimal.{Text}
use nido.Base.Texts.{codes}
use nido.ZkRecovery.Field.{
  Fr, Bytes, FieldError, field_order, field_to_bytes32, bytes_to_field_canonical,
}
use nido.ZkRecovery.Field.Bytes.{bytes_to_field_canonical-field_to_bytes32}
use nido.ZkRecovery.Merkle
use nido.ZkRecovery.PoolSync.{Leaf}
use nido.ZkRecovery.Poseidon.{p2, hash_pair}
use nido.ZkRecovery.AuthHash.{compute_nullifier, compute_auth_hash}
use nido.ZkActions.Blob.{raw_proof_from_blob}
use nido.ZkActions.Circuit.{AssembleInputsArgs, NoirInputMap, auth_params, assemble_circuit_inputs}
use nido.ZkActions.Circuit.Agreement.{
  IsInputs, noir_value, circuit_preimage, assemble_circuit_inputs-Agrees,
}
use nido.ZkActions.Sync.{
  ActionError, field, auth, blob, prover, lift, fetch_registry_address, fetch_current_root_fr,
  PoolWitness, sync_pool_and_locate,
}
use nido.ZkActions.Sync.Opens.{lift-eq-ok, IsSnapshot, IsOpening, sync_pool_and_locate-Opens}
use nido.ZkActions.Build.{ProofArgs}
use nido.ZkActions.Prove.{prove}
use nido.ZkActions.Actions.{World, Situation, found, stored_leaf, locate, prove_at, prove_action}

-- What is assembled for the circuit.
abbrev pub inputs_of :
    (action : ℕ)
    → Option Bytes
    → (timelock_secs : ℕ) → Fr
    → Situation
    → (nullifier : Fr) → AssembleInputsArgs
inputs_of action new_pubkey65 timelock_secs secret s nullifier = record {
  action = action;
  account_id32 = s.account_id32;
  controller_id32 = s.controller_id32;
  secret = secret;
  root = s.witness.root;
  siblings = s.witness.siblings;
  bits = s.witness.bits;
  nullifier = nullifier;
  new_pubkey65 = new_pubkey65;
  nonce = s.nonce;
  timelock_secs = timelock_secs;
}

abbrev pub sent : {A : Type 0} → A → Result ActionError A
sent x = ok x

pub ok_injective : {A : Type 0} {x : A} (y : A) → sent x ≡ sent y → y ≡ x
ok_injective y e = cc

module _ (world : World) where
  -- The account's leaf for this secret stands in the pool: the witness opens it to the root that the
  -- contract reports.
  pub record IsLocated (account : Text) (secret : Fr) (s : Situation) : Type 0 where
    pub leaf : Fr
    pub registered : fetch_registry_address world.reads (codes "zk-recovery") ≡ ok s.controller_id
    pub account_bytes : world.reads.decode_contract account ≡ ok s.account_id32
    pub controller_bytes : world.reads.decode_contract s.controller_id ≡ ok s.controller_id32
    pub stored : stored_leaf world s.account_id32 secret ≡ ok leaf
    pub on_chain : fetch_current_root_fr world.reads s.controller_id ≡ ok s.witness.root
    pub opening : IsOpening (hash_pair world.poseidon2_hash) leaf s.witness
    pub next_nonce : world.reads.next_nonce s.controller_id account ≡ ok s.nonce

  -- What a proof's arguments come from: a located leaf, and a proof of a circuit whose inputs carry
  -- the witness, the nullifier of the account and the secret, and the hash of the authorised call.
  pub record IsAuthorized (action : ℕ) (new_pubkey65 : Option Bytes) (timelock_secs : ℕ)
      (account : Text) (secret : Fr) (args : ProofArgs) : Type 0 where
    pub s : Situation
    pub located : IsLocated account secret s
    pub nullifier : Fr
    pub auth_hash : Fr
    pub inputs : NoirInputMap
    pub made : Bytes
    pub nullifies : compute_nullifier world.poseidon2_hash s.account_id32 secret ≡ ok nullifier
    pub carried : IsInputs (inputs_of action new_pubkey65 timelock_secs secret s nullifier) inputs
    pub hash_input : noir_value inputs.auth_hash ≡ auth_hash
    pub circuit_hash : p2 world.poseidon2_hash (circuit_preimage inputs) ≡ ok auth_hash
    pub authorised :
        compute_auth_hash world.poseidon2_hash world.sha256 world.utf8 (
          auth_params world.network_passphrase
            (inputs_of action new_pubkey65 timelock_secs secret s nullifier))
        ≡ ok auth_hash
    pub proved : prove world.tools (codes "zk_recovery") inputs ≡ ok made
    pub proof_bytes : raw_proof_from_blob made ≡ ok args.proof
    pub root_bytes : field_to_bytes32 s.witness.root ≡ ok args.root
    pub nullifier_bytes : field_to_bytes32 nullifier ≡ ok args.nullifier
    pub same_controller : args.controller_id ≡ s.controller_id
    pub same_account : args.account ≡ account
    pub same_nonce : args.nonce ≡ s.nonce

  -- A field element's bytes are read back.
  canonical-of-bytes :
      (x : Fr) (b : Bytes) → field_to_bytes32 x ≡ ok b → bytes_to_field_canonical b ≡ ok x
  unfolding field_to_bytes32
  canonical-of-bytes x b e = elim (Bool-cases (leb field_order x)) [
    | inl big ↦
        absurd
          (let clash : err FieldError.out_of_range ≡ ok b = rw (field_to_bytes32, big) at e in cc)
    | inr small ↦
        let below : x < field_order = ground arith in
        let back = rw e at (bytes_to_field_canonical-field_to_bytes32 x below) in back
  ]

  found-eq-ok : (o : Option PoolWitness) (w : PoolWitness) → found o ≡ ok w → o ≡ some w
  unfolding found
  found-eq-ok none w e = cc
  found-eq-ok (some v) w e = cc

  abbrev pub IsSmall : Type 0
  IsSmall =
      (controller_id : Text) (merged : List Leaf)
      → IsSnapshot (hash_pair world.poseidon2_hash) world.reads controller_id merged
      → length merged ≤ 2 ^ Merkle.depth

  -- The parts of a located leaf, put together.
  parts-IsLocated :
      (account : Text) (secret : Fr) (s : Situation) (controller_id other_id : Text)
      (account_id32 controller_id32 leaf32 : Bytes) (leaf found_leaf : Fr) (w : PoolWitness)
      (nonce : ℕ)
      → fetch_registry_address world.reads (codes "zk-recovery") ≡ ok controller_id
      → world.reads.decode_contract account ≡ ok account_id32
      → world.reads.decode_contract controller_id ≡ ok controller_id32
      → stored_leaf world account_id32 secret ≡ ok leaf
      → field_to_bytes32 leaf ≡ ok leaf32
      → fetch_registry_address world.reads (codes "zk-recovery") ≡ ok other_id
      → fetch_current_root_fr world.reads other_id ≡ ok w.root
      → bytes_to_field_canonical leaf32 ≡ ok found_leaf
      → IsOpening (hash_pair world.poseidon2_hash) found_leaf w
      → world.reads.next_nonce controller_id account ≡ ok nonce
      → s ≡ record {
        controller_id = controller_id;
        account_id32 = account_id32;
        controller_id32 = controller_id32;
        witness = w;
        nonce = nonce;
      }
      → IsLocated account secret s
  parts-IsLocated account secret s controller_id other_id account_id32 controller_id32 leaf32 leaf
        found_leaf w nonce reg acc ctrl st bytes reg' root canonical opening next same =
      let back = canonical-of-bytes leaf leaf32 bytes in
      let same_leaf : found_leaf ≡ leaf = cc in
      let same_id : other_id ≡ controller_id = cc in
      rw same (record {
        leaf = leaf;
        registered = reg;
        account_bytes = acc;
        controller_bytes = ctrl;
        stored = st;
        on_chain =
            subst (λ (c : Text). fetch_current_root_fr world.reads c ≡ ok w.root) same_id root;
        opening =
            subst (λ (l : Fr). IsOpening (hash_pair world.poseidon2_hash) l w) same_leaf opening;
        next_nonce = next;
      })

  locate-IsLocated :
      (account : Text) (secret : Fr) (s : Situation)
      → IsSmall
      → locate world account secret ≡ ok s
      → IsLocated account secret s
  unfolding locate
  locate-IsLocated account secret s small e =
      let (controller_id, reg, e1) =
        >>=-ok (fetch_registry_address world.reads (codes "zk-recovery")) _ e in
      let (account_id32, acc, e2) = >>=-ok (world.reads.decode_contract account) _ e1 in
      let (controller_id32, ctrl, e3) = >>=-ok (world.reads.decode_contract controller_id) _ e2 in
      let (leaf, st, e4) = >>=-ok (stored_leaf world account_id32 secret) _ e3 in
      let (leaf32, bytes, e5) = >>=-ok (lift field (field_to_bytes32 leaf)) _ e4 in
      let (located, synced, e6) =
        >>=-ok (sync_pool_and_locate (hash_pair world.poseidon2_hash) world.reads leaf32) _ e5 in
      let (w, found_w, e7) = >>=-ok (found located) _ e6 in
      let (nonce, next, e8) = >>=-ok (world.reads.next_nonce controller_id account) _ e7 in
      let (other_id, found_leaf, reg', root, canonical, opening) =
        sync_pool_and_locate-Opens (hash_pair world.poseidon2_hash) world.reads leaf32 w small
          (synced ∙ ap ok (found-eq-ok located w found_w)) in
      parts-IsLocated account secret s controller_id other_id account_id32 controller_id32 leaf32
        leaf found_leaf w nonce reg acc ctrl st
        (lift-eq-ok field (field_to_bytes32 leaf) leaf32 bytes) reg' root canonical opening next
        (ok_injective s e8)

  parts-IsAuthorized :
      (action : ℕ) (key : Option Bytes) (timelock_secs : ℕ) (account : Text) (secret : Fr)
      (args : ProofArgs) (s : Situation) (nullifier auth_hash : Fr) (inputs : NoirInputMap)
      (made root32 nullifier32 proof : Bytes)
      → IsLocated account secret s
      → compute_nullifier world.poseidon2_hash s.account_id32 secret ≡ ok nullifier
      → assemble_circuit_inputs world.poseidon2_hash world.sha256 world.utf8
          world.network_passphrase
          (inputs_of action key timelock_secs secret s nullifier)
        ≡ ok (inputs, auth_hash)
      → prove world.tools (codes "zk_recovery") inputs ≡ ok made
      → field_to_bytes32 s.witness.root ≡ ok root32
      → field_to_bytes32 nullifier ≡ ok nullifier32
      → raw_proof_from_blob made ≡ ok proof
      → args ≡ record {
        controller_id = s.controller_id;
        account = account;
        nonce = s.nonce;
        root = root32;
        nullifier = nullifier32;
        proof = proof;
      }
      → IsAuthorized action key timelock_secs account secret args
  parts-IsAuthorized action key timelock_secs account secret args s nullifier auth_hash inputs made
        root32 nullifier32 proof located n a p r n32 raw same =
      let (carried, hash_value, circuit_hash, hashed) =
        assemble_circuit_inputs-Agrees world.poseidon2_hash world.sha256 world.utf8
          world.network_passphrase (inputs_of action key timelock_secs secret s nullifier) inputs
          auth_hash a in
      rw same (record {
        s = s;
        located = located;
        nullifier = nullifier;
        auth_hash = auth_hash;
        inputs = inputs;
        made = made;
        nullifies = n;
        carried = carried;
        hash_input = hash_value;
        circuit_hash = circuit_hash;
        authorised = hashed;
        proved = p;
        proof_bytes = raw;
        root_bytes = r;
        nullifier_bytes = n32;
        same_controller = refl;
        same_account = refl;
        same_nonce = refl;
      })

  prove_at-IsAuthorized :
      (action : ℕ) (key : Option Bytes) (timelock_secs : ℕ) (account : Text) (secret : Fr)
      (s : Situation) (args : ProofArgs)
      → IsLocated account secret s
      → prove_at world action key timelock_secs account secret s ≡ ok args
      → IsAuthorized action key timelock_secs account secret args
  unfolding prove_at
  prove_at-IsAuthorized action key timelock_secs account secret s args located e =
      let (nullifier, n, e1) =
        >>=-ok (lift auth (compute_nullifier world.poseidon2_hash s.account_id32 secret)) _ e in
      let ((inputs, auth_hash), a, e2) =
        >>=-ok
          (lift auth (
            assemble_circuit_inputs world.poseidon2_hash world.sha256 world.utf8
              world.network_passphrase (inputs_of action key timelock_secs secret s nullifier)))
          _ e1 in
      let (made, p, e3) =
        >>=-ok (lift prover (prove world.tools (codes "zk_recovery") inputs)) _ e2 in
      let (root32, r, e4) = >>=-ok (lift field (field_to_bytes32 s.witness.root)) _ e3 in
      let (nullifier32, n32, e5) = >>=-ok (lift field (field_to_bytes32 nullifier)) _ e4 in
      let (proof, raw, e6) = >>=-ok (lift blob (raw_proof_from_blob made)) _ e5 in
      parts-IsAuthorized action key timelock_secs account secret args s nullifier auth_hash inputs
        made root32 nullifier32 proof located (lift-eq-ok auth _ nullifier n)
        (lift-eq-ok auth _ (inputs, auth_hash) a) (lift-eq-ok prover _ made p)
        (lift-eq-ok field _ root32 r) (lift-eq-ok field _ nullifier32 n32)
        (lift-eq-ok blob _ proof raw) (ok_injective args e6)

  -- Arguments that `proveAction` gives are authorised.
  pub prove_action-IsAuthorized :
      (action : ℕ) (key : Option Bytes) (timelock_secs : ℕ) (account : Text) (secret : Fr)
      (args : ProofArgs)
      → IsSmall
      → prove_action world action key timelock_secs account secret ≡ ok args
      → IsAuthorized action key timelock_secs account secret args
  unfolding prove_action
  prove_action-IsAuthorized action key timelock_secs account secret args small e =
      let (s, located, proved) = >>=-ok (locate world account secret) _ e in
      prove_at-IsAuthorized action key timelock_secs account secret s args
        (locate-IsLocated account secret s small located) proved
