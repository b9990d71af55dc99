-- ===== src/Policy.antt =====
-- packages/passkey-sdk/src/policyBlocks/types.ts: the rules of an account as the chain tells them,
-- and the blocks that the wallet shows. A local record by address or by rule id is a function; the
-- two fields of a spending limit are set together, and are one field here.
pub mod Rules
pub mod Blocks
pub mod Signers
pub mod Summary
use nido.Base.{ℕ, List, Option, Bool}
use nido.Base.Decimal.{Text}
use nido.Base.Int.{ℤ}
use nido.Base.Dict.{Dict}
use nido.ZkRecovery.Field.{Bytes}

pub data ContextType : Type 0 where
  default_context : ContextType
  call_contract : (contract : Text) → ContextType
  create_contract : (wasm : Bytes) → ContextType

pub data ChainSigner : Type 0 where
  delegated : (address : Text) → ChainSigner
  external : (verifier : Text) (public_key : Bytes) → ChainSigner

pub record ChainRule : Type 0 where
  pub rule_id : ℕ
  pub context_type : ContextType
  pub name : Text
  pub signers : List ChainSigner
  pub policies : List Text
  pub valid_until : Option ℕ

pub data SpendingLimit : Type 0 where
  unreadable : SpendingLimit
  limit : (stroops : ℤ) (period_ledgers : ℕ) → SpendingLimit

-- The state of one policy: the fields that its contract answers.
pub record PolicyEntry : Type 0 where
  pub threshold : Option ℕ
  pub spending_limit : Option SpendingLimit

abbrev pub PolicyState : Type 0
PolicyState = Dict PolicyEntry

pub record SessionKeyMaterial : Type 0 where
  pub credential_id : Text
  pub label : Option Text

pub record LocalOverlay : Type 0 where
  pub friend_nicknames : Text → Option Text
  pub session_key_material : Text → Option SessionKeyMaterial
  pub block_labels : ℕ → Option Text

pub record Friend : Type 0 where
  pub address : Text
  pub input_as : Text
  pub nickname : Option Text

pub record MultisigRecoveryBlock : Type 0 where
  pub rule_id : Option ℕ
  pub threshold : ℕ
  pub friends : List Friend
  pub label : Option Text

pub record ScopedSessionKeyBlock : Type 0 where
  pub rule_id : Option ℕ
  pub target_contract : Text
  pub session_pubkey : Bytes
  pub credential_id : Text
  pub valid_until : Option ℕ
  pub label : Option Text
  pub limit_stroops : Option (ℤ × ℕ)
  pub limit_unreadable : Bool

pub data PolicyBlock : Type 0 where
  multisig_recovery : MultisigRecoveryBlock → PolicyBlock
  scoped_session_key : ScopedSessionKeyBlock → PolicyBlock
