-- ===== src/ZkRecovery/AuthHash.antt =====
-- packages/passkey-sdk/src/zkRecovery/authHash.ts: the commitments of the recovery circuit. The
-- parameters are `poseidon2Hash`, `sha256` and the text encoder.
pub mod Preimage
pub mod Commitment
use nido.Base.{
  ℕ, List, [], ◌∷◌, ◌++◌, Option, none, some, Result, ok, err, ◌>>=◌, ◌==◌, not, if◌then◌else◌,
  length, get_or, slice,
}
use nido.Base.Decimal.{Text}
use nido.ZkRecovery.Field.{
  Fr, Bytes, FieldError, dom_leaf, dom_bind, dom_null, dom_auth, split16, u256_from_u64,
}
use nido.ZkRecovery.Poseidon.{PoseidonError, p2}

pub data AuthError : Type 0 where
  bad_field : FieldError → AuthError
  bad_arity : PoseidonError → AuthError
  bad_pubkey : ℕ → AuthError

abbrev pub field : {A : Type 0} → Result FieldError A → Result AuthError A
field (ok x) = ok x
field (err e) = err (bad_field e)

abbrev pub arity : {A : Type 0} → Result PoseidonError A → Result AuthError A
arity (ok x) = ok x
arity (err e) = err (bad_arity e)

pub record AuthHashParams : Type 0 where
  pub action : ℕ
  pub account_id32 : Bytes
  pub network_passphrase : Text
  pub controller_id32 : Bytes
  pub new_pubkey65 : Option Bytes
  pub nonce : ℕ
  pub timelock_secs : ℕ

-- The five variables of the new key: `null` leaves them at zero.
unfoldable pub pubkey_inputs : Option Bytes → Result AuthError (List Fr)
pubkey_inputs none = ok (0 ∷ 0 ∷ 0 ∷ 0 ∷ 0 ∷ [])
pubkey_inputs (some key) = if not (length key == 65) then err (bad_pubkey (length key)) else do
  pk_prefix ← field (u256_from_u64 (get_or key 0 0))
  (pk_x_hi, pk_x_lo) ← field (split16 (slice key 1 33))
  (pk_y_hi, pk_y_lo) ← field (split16 (slice key 33 65))
  ok (pk_prefix ∷ pk_x_hi ∷ pk_x_lo ∷ pk_y_hi ∷ pk_y_lo ∷ [])

module _ (poseidon2_hash : List Fr → Fr) where
  unfoldable pub wrap_leaf_inner : Fr → Result AuthError Fr
  wrap_leaf_inner secret = arity (p2 poseidon2_hash (dom_leaf ∷ secret ∷ []))

  unfoldable pub wrap_leaf_stored : Bytes → Fr → Result AuthError Fr
  wrap_leaf_stored account_id32 inner = do
    (acct_hi, acct_lo) ← field (split16 account_id32)
    arity (p2 poseidon2_hash (dom_bind ∷ acct_hi ∷ acct_lo ∷ inner ∷ []))

  unfoldable pub compute_nullifier : Bytes → Fr → Result AuthError Fr
  compute_nullifier account_id32 secret = do
    (acct_hi, acct_lo) ← field (split16 account_id32)
    arity (p2 poseidon2_hash (dom_null ∷ acct_hi ∷ acct_lo ∷ secret ∷ []))

module _ (sha256 : Bytes → Bytes) (encode : Text → Bytes) where
  -- The array that `computeAuthHash` hashes.
  unfoldable pub auth_inputs : AuthHashParams → Result AuthError (List Fr)
  auth_inputs p = do
    action ← field (u256_from_u64 p.action)
    (acct_hi, acct_lo) ← field (split16 p.account_id32)
    (npass_hi, npass_lo) ← field (split16 (sha256 (encode p.network_passphrase)))
    (ctrl_hi, ctrl_lo) ← field (split16 p.controller_id32)
    pubkey ← pubkey_inputs p.new_pubkey65
    nonce ← field (u256_from_u64 p.nonce)
    timelock ← field (u256_from_u64 p.timelock_secs)
    ok (
        dom_auth ∷ action ∷ acct_hi ∷ acct_lo ∷ npass_hi ∷ npass_lo ∷ ctrl_hi ∷ ctrl_lo ∷ pubkey
        ++ nonce ∷ timelock ∷ [])

module _ (poseidon2_hash : List Fr → Fr) (sha256 : Bytes → Bytes) (encode : Text → Bytes) where
  unfoldable pub compute_auth_hash : AuthHashParams → Result AuthError Fr
  compute_auth_hash p = do inputs ← auth_inputs sha256 encode p; arity (p2 poseidon2_hash inputs)
