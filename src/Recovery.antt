-- ===== src/Recovery.antt =====
-- packages/frontend/src/lib/recoveryActions.ts and packages/passkey-sdk/src/friendSigning.ts: the data
-- of a recovery that is staged in the browser: its transactions and the friends' signatures.
pub mod Staging
pub mod Rules
pub mod Signing
pub mod Submit
pub mod Collect
use nido.Base.{ℕ, List, [], ◌∷◌, Option, none, some}
use nido.Base.Decimal.{Text}
use nido.Base.Dict.{Dict}
use nido.ZkRecovery.Field.{Bytes}

pub record FriendEntry : Type 0 where
  pub authenticator_data : Bytes
  pub client_data_json : Bytes
  pub signature : Bytes
  pub nonce : Text
  pub signature_expiration_ledger : ℕ

pub record FriendSignature : Type 0 where
  pub friend_account : Text
  pub verifier_address : Text
  pub public_key : Bytes
  pub entries : List FriendEntry

pub record StagedRotationTx : Type 0 where
  pub tx_xdr : Text
  pub refractor_tx_hash : Text
  pub refractor_tx_url : Text
  pub parent_auth_digest_hex : Text
  pub relayer_tx_id : Option Text
  pub submitted_hash : Option Text

pub record RotationStaging : Type 0 where
  pub account : Text
  pub recovery_rule_id : ℕ
  pub threshold : ℕ
  pub friends : List Text
  pub txs : List StagedRotationTx
  pub last_ledger : ℕ
  pub parent_signature_expiration_ledger : ℕ
  pub description : Text
  pub relay_key : Text
  pub collected : Dict FriendSignature

-- A string that is there and not empty, as the code's conditions read it.
abbrev pub truthy : Option Text → Option Text
truthy none = none
truthy (some []) = none
truthy (some (c ∷ s)) = some (c ∷ s)
