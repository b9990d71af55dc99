-- ===== src/ZkActions/Circuit.antt =====
-- zkRecoveryActions.ts: the inputs of the recovery circuit. The parameters are `poseidon2Hash`,
-- `sha256`, the text encoder and the build's network passphrase.
pub mod Agreement
use nido.Base.{
  ℕ, List, [], ◌∷◌, ◌++◌, map, Option, none, some, Result, ok, err, ◌>>=◌, ◌==◌, not, if◌then◌else◌,
  length, get_or, slice,
}
use nido.Base.Decimal.{Text}
use nido.Base.Hex.{to_hex}
use nido.Base.Texts.{codes}
use nido.ZkRecovery.Field.{Fr, Bytes, split16, u256_from_u64}
use nido.ZkRecovery.AuthHash.{AuthError, bad_pubkey, field, AuthHashParams, compute_auth_hash}

pub record PubkeyFields : Type 0 where
  pub pk_prefix : Fr
  pub pk_x_hi : Fr
  pub pk_x_lo : Fr
  pub pk_y_hi : Fr
  pub pk_y_lo : Fr

unfoldable pub pubkey_fields : Option Bytes → Result AuthError PubkeyFields
pubkey_fields none =
    ok (record { pk_prefix = 0; pk_x_hi = 0; pk_x_lo = 0; pk_y_hi = 0; pk_y_lo = 0 })
pubkey_fields (some key) = if not (length key == 65) then err (bad_pubkey (length key)) else do
  prefix ← field (u256_from_u64 (get_or key 0 0))
  (x_hi, x_lo) ← field (split16 (slice key 1 33))
  (y_hi, y_lo) ← field (split16 (slice key 33 65))
  ok (record { pk_prefix = prefix; pk_x_hi = x_hi; pk_x_lo = x_lo; pk_y_hi = y_hi; pk_y_lo = y_lo })

unfoldable pub fr_to_noir_field : Fr → Text
fr_to_noir_field x = codes "0x" ++ to_hex x

pub record AssembleInputsArgs : Type 0 where
  pub action : ℕ
  pub account_id32 : Bytes
  pub controller_id32 : Bytes
  pub secret : Fr
  pub root : Fr
  pub siblings : List Fr
  pub bits : List ℕ
  pub nullifier : Fr
  pub new_pubkey65 : Option Bytes
  pub nonce : ℕ
  pub timelock_secs : ℕ

pub record NoirInputMap : Type 0 where
  pub root : Text
  pub nullifier : Text
  pub auth_hash : Text
  pub secret : Text
  pub acct_hi : Text
  pub acct_lo : Text
  pub path_siblings : List Text
  pub path_bits : List Text
  pub action : Text
  pub npass_hi : Text
  pub npass_lo : Text
  pub ctrl_hi : Text
  pub ctrl_lo : Text
  pub pk_prefix : Text
  pub pk_x_hi : Text
  pub pk_x_lo : Text
  pub pk_y_hi : Text
  pub pk_y_lo : Text
  pub nonce : Text
  pub timelock_secs : Text

-- The arguments of `computeAuthHash`.
abbrev pub auth_params : Text → AssembleInputsArgs → AuthHashParams
auth_params network_passphrase a = record {
  action = a.action;
  account_id32 = a.account_id32;
  network_passphrase = network_passphrase;
  controller_id32 = a.controller_id32;
  new_pubkey65 = a.new_pubkey65;
  nonce = a.nonce;
  timelock_secs = a.timelock_secs;
}

-- The map, from the halves, the fields of the key and the hash.
unfoldable pub noir_inputs :
    AssembleInputsArgs
    → (acct ctrl npass : Fr × Fr) → PubkeyFields
    → (auth_hash : Fr) → NoirInputMap
noir_inputs a (acct_hi, acct_lo) (ctrl_hi, ctrl_lo) (npass_hi, npass_lo) pk auth_hash = record {
  root = fr_to_noir_field a.root;
  nullifier = fr_to_noir_field a.nullifier;
  auth_hash = fr_to_noir_field auth_hash;
  secret = fr_to_noir_field a.secret;
  acct_hi = fr_to_noir_field acct_hi;
  acct_lo = fr_to_noir_field acct_lo;
  path_siblings = map fr_to_noir_field a.siblings;
  path_bits = map fr_to_noir_field a.bits;
  action = fr_to_noir_field a.action;
  npass_hi = fr_to_noir_field npass_hi;
  npass_lo = fr_to_noir_field npass_lo;
  ctrl_hi = fr_to_noir_field ctrl_hi;
  ctrl_lo = fr_to_noir_field ctrl_lo;
  pk_prefix = fr_to_noir_field pk.pk_prefix;
  pk_x_hi = fr_to_noir_field pk.pk_x_hi;
  pk_x_lo = fr_to_noir_field pk.pk_x_lo;
  pk_y_hi = fr_to_noir_field pk.pk_y_hi;
  pk_y_lo = fr_to_noir_field pk.pk_y_lo;
  nonce = fr_to_noir_field a.nonce;
  timelock_secs = fr_to_noir_field a.timelock_secs;
}

module _ (poseidon2_hash : List Fr → Fr) (sha256 : Bytes → Bytes) (encode : Text → Bytes)
    (network_passphrase : Text) where
  unfoldable pub assemble_circuit_inputs : AssembleInputsArgs → Result AuthError (NoirInputMap × Fr)
  assemble_circuit_inputs a = do
    acct ← field (split16 a.account_id32)
    ctrl ← field (split16 a.controller_id32)
    npass ← field (split16 (sha256 (encode network_passphrase)))
    pk ← pubkey_fields a.new_pubkey65
    auth_hash ← compute_auth_hash poseidon2_hash sha256 encode (auth_params network_passphrase a)
    ok (noir_inputs a acct ctrl npass pk auth_hash, auth_hash)
