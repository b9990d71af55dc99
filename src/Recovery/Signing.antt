-- ===== src/Recovery/Signing.antt =====
-- `prepareRotation` and `signRotationAsFriend` of packages/frontend/src/lib/recoveryActions.ts: the
-- originator stages each transaction with the digest that the friends authorise, and each friend
-- computes the digest again from the handoff. The parameters are the network's simulation, the store of
-- transactions (Refractor), the reading of an XDR, the hashes, and the passkey.
pub mod Envelope
pub mod Agreement
use nido.Base.{
  ℕ, zero, suc, ◌+◌, List, [], ◌∷◌, Option, none, some, Bool, true, false, not, Result, ok, err,
  ◌>>=◌, ◌==◌, if◌then◌else◌, length, map,
}
use nido.Base.Decimal.{Text}
use nido.Base.Texts.{has, same_text, codes}
use nido.ZkRecovery.Field.{Bytes}
use nido.Rotation.{RotationCall, RotationRequest, plan_rotation}
use nido.Policy.{ChainRule}
use nido.Recovery.{FriendEntry, FriendSignature, StagedRotationTx, RotationStaging}
use nido.Recovery.Rules.{
  RecoveryError, simulation_error, store_error, no_auth_entry, not_listed, no_passkey,
  unsupported_network, cancelled, fetch_error, RecoveryRuleInfo, AuthEntry, EnvelopeOperation,
  validate_recovery_tx_envelope, enrich_rotation_request, plan_error,
}

abbrev pub parent_expiration_offset : ℕ
parent_expiration_offset = 10000

pub record RotationHandoff : Type 0 where
  pub account : Text
  pub recovery_rule_id : ℕ
  pub refractor_tx_hashes : List Text
  pub parent_signature_expiration_ledger : ℕ
  pub relay_key : Text
  pub relay_base_url : Text

-- The hashing and the XDR that both sides use. `auth_hash_at` is the hash of an entry at an expiration
-- ledger, `auth_digest` the digest of it under a rule, in hex, and `operations_of` what an envelope holds.
pub record Codec : Type 0 where
  pub operations_of : Text → List EnvelopeOperation
  pub auth_hash_at : AuthEntry → ℕ → Bytes
  pub auth_digest : Bytes → List ℕ → Text

-- A simulated and assembled transaction: the ledger of the simulation and the XDR.
pub record Assembled : Type 0 where
  pub latest_ledger : ℕ
  pub tx_xdr : Text

unfoldable pub parent_digest : Codec → AuthEntry → (expiration rule_id : ℕ) → Text
parent_digest codec entry expiration rule_id =
    codec.auth_digest (codec.auth_hash_at entry expiration) (rule_id ∷ [])

-- The root entry of the first operation. `assembledRootAuthEntry` throws without one.
unfoldable pub first_entry : List AuthEntry → Result RecoveryError AuthEntry
first_entry [] = err no_auth_entry
first_entry (entry ∷ auth) = ok entry

unfoldable pub root_entry : List EnvelopeOperation → Result RecoveryError AuthEntry
root_entry [] = err no_auth_entry
root_entry (operation ∷ operations) = first_entry operation.auth

-- What the loop carries: the frozen ledgers, zero until the first simulation, and the transactions.
pub record Staged : Type 0 where
  pub last_ledger : ℕ
  pub expiration : ℕ
  pub txs : List StagedRotationTx

unfoldable pub stored_as :
    (url_of : Text → Text)
    → (tx_xdr digest : Text) → Option Text
    → Result RecoveryError StagedRotationTx
stored_as url_of tx_xdr digest none = err store_error
stored_as url_of tx_xdr digest (some hash) = ok (record {
  tx_xdr = tx_xdr;
  refractor_tx_hash = hash;
  refractor_tx_url = url_of hash;
  parent_auth_digest_hex = digest;
  relayer_tx_id = none;
  submitted_hash = none;
})

-- The ledgers after a simulation at `latest`.
abbrev pub frozen_last : (expiration last latest : ℕ) → ℕ
frozen_last expiration last latest = if expiration == 0 then latest else last

abbrev pub frozen_expiration : (expiration latest : ℕ) → ℕ
frozen_expiration expiration latest =
    if expiration == 0 then latest + parent_expiration_offset else expiration

module _ (codec : Codec) (simulate : RotationCall → Option Assembled) (store : Text → Option Text)
    (url_of : Text → Text) (rule_id : ℕ) where
  unfoldable pub stage_tx : (expiration : ℕ) → Assembled → Result RecoveryError StagedRotationTx
  stage_tx expiration assembled = root_entry (codec.operations_of assembled.tx_xdr) >>= λ entry.
      stored_as url_of assembled.tx_xdr (parent_digest codec entry expiration rule_id)
        (store assembled.tx_xdr)

  unfoldable pub stage_txs : (last expiration : ℕ) → List RotationCall → Result RecoveryError Staged
  stage_txs last expiration [] =
      ok (record { last_ledger = last; expiration = expiration; txs = [] })
  stage_txs last expiration (operation ∷ operations) = elim (simulate operation) [
    | none ↦ err simulation_error
    | some assembled ↦
        stage_tx (frozen_expiration expiration assembled.latest_ledger) assembled >>= λ tx.
        stage_txs (frozen_last expiration last assembled.latest_ledger)
          (frozen_expiration expiration assembled.latest_ledger) operations
        >>= λ rest. ok (record {
          last_ledger = rest.last_ledger;
          expiration = rest.expiration;
          txs = tx ∷ rest.txs;
        })
  ]

unfoldable pub hashes_of : List StagedRotationTx → List Text
hashes_of [] = []
hashes_of (tx ∷ txs) = tx.refractor_tx_hash ∷ hashes_of txs

unfoldable pub handoff_of : RotationStaging → Text → RotationHandoff
handoff_of staging relay_base_url = record {
  account = staging.account;
  recovery_rule_id = staging.recovery_rule_id;
  refractor_tx_hashes = hashes_of staging.txs;
  parent_signature_expiration_ledger = staging.parent_signature_expiration_ledger;
  relay_key = staging.relay_key;
  relay_base_url = relay_base_url;
}

-- The arguments of `prepareRotation`, and what it mints and builds: the description of the plan and the
-- key of the relay's bucket.
pub record PrepareArgs : Type 0 where
  pub account : Text
  pub recovery_rule_id : ℕ
  pub friends : List Text
  pub threshold : ℕ
  pub description : Text
  pub relay_key : Text

abbrev pub prepared : PrepareArgs → Staged → RotationStaging
prepared args staged = record {
  account = args.account;
  recovery_rule_id = args.recovery_rule_id;
  threshold = args.threshold;
  friends = args.friends;
  txs = staged.txs;
  last_ledger = staged.last_ledger;
  parent_signature_expiration_ledger = staged.expiration;
  description = args.description;
  relay_key = args.relay_key;
  collected = [];
}

-- The staging of `prepareRotation` for the operations of a plan.
unfoldable pub stage_rotation :
    Codec
    → (simulate : RotationCall → Option Assembled) → (store : Text → Option Text)
    → (url_of : Text → Text) → PrepareArgs
    → (operations : List RotationCall) → Result RecoveryError RotationStaging
stage_rotation codec simulate store url_of args operations =
    stage_txs codec simulate store url_of args.recovery_rule_id 0 0 operations >>= λ staged.
    ok (prepared args staged)

unfoldable pub plan_or_throw : RotationRequest → Result RecoveryError (List RotationCall)
plan_or_throw request = elim (plan_rotation request) [
  | err error ↦ err plan_error
  | ok operations ↦ ok operations
]

-- `chain` and `policy` are what the completion of the request reads. What is returned is saved, and
-- shared as `handoff_of`.
unfoldable pub prepare_rotation :
    Codec
    → (simulate : RotationCall → Option Assembled) → (store : Text → Option Text)
    → (url_of : Text → Text) → PrepareArgs
    → (chain : Result RecoveryError (List ChainRule)) → (policy : Result RecoveryError Text)
    → RotationRequest
    → Result RecoveryError RotationStaging
prepare_rotation codec simulate store url_of args chain policy request =
    enrich_rotation_request chain policy request >>= λ completed.
    plan_or_throw completed >>= λ operations.
    stage_rotation codec simulate store url_of args operations

-- What Refractor answers for a hash.
pub record RefractorTx : Type 0 where
  pub network : Text
  pub xdr : Text

-- The friend's passkey over the payload of its nested entry, which names the account, the parent's
-- digest, the nonce and the expiration; `none` is a cancelled ceremony.
pub record Passkey : Type 0 where
  pub sign : (account digest_hex nonce : Text) (expiration : ℕ) → Option FriendEntry

module _ (codec : Codec) (handoff : RotationHandoff) where
  unfoldable pub digest_of_tx : Option RefractorTx → Result RecoveryError Text
  digest_of_tx none = err fetch_error
  digest_of_tx (some tx) =
      if not (same_text tx.network (codes "testnet"))
      then err unsupported_network
      else (validate_recovery_tx_envelope (codec.operations_of tx.xdr) handoff.account >>= λ entry.
          ok (
            parent_digest codec entry handoff.parent_signature_expiration_ledger
              handoff.recovery_rule_id))

  -- The digest that the friend computes for one hash of the handoff.
  unfoldable pub friend_digest :
      (fetch : Text → Option RefractorTx) → Text → Result RecoveryError Text
  friend_digest fetch hash = digest_of_tx (fetch hash)

module _ (codec : Codec) (fetch : Text → Option RefractorTx) (passkey : Passkey)
    (handoff : RotationHandoff) (expiration : ℕ) where
  unfoldable pub sign_hash : (nonce hash : Text) → Result RecoveryError FriendEntry
  sign_hash nonce hash = friend_digest codec handoff fetch hash >>= λ digest.
      elim (passkey.sign handoff.account digest nonce expiration) [
        | none ↦ err cancelled
        | some entry ↦ ok entry
      ]

  -- `nonce_at` is the fresh nonce of the index.
  unfoldable pub sign_hashes :
      (nonce_at : ℕ → Text) → ℕ → List Text → Result RecoveryError (List FriendEntry)
  sign_hashes nonce_at i [] = ok []
  sign_hashes nonce_at i (hash ∷ hashes) = do
    entry ← sign_hash (nonce_at i) hash
    rest ← sign_hashes nonce_at (suc i) hashes
    ok (entry ∷ rest)

-- The friend's own credential: the verifier of its default rule and its key.
pub record Credential : Type 0 where
  pub verifier_address : Text
  pub public_key : Bytes

-- `rule` is `requireRecoveryRule` of the handoff, and `latest` the current ledger.
unfoldable pub sign_rotation_as_friend :
    Codec
    → (fetch : Text → Option RefractorTx) → Passkey
    → (nonce_at : ℕ → Text) → (rule : Result RecoveryError RecoveryRuleInfo)
    → (credential : Option Credential) → (latest : ℕ) → (friend_account : Text) → RotationHandoff
    → Result RecoveryError FriendSignature
sign_rotation_as_friend codec fetch passkey nonce_at rule credential latest friend_account handoff =
    rule >>= λ info.
    if not (has info.friends friend_account) then err not_listed else elim credential [
      | none ↦ err no_passkey
      | some cred ↦
          sign_hashes codec fetch passkey handoff (latest + parent_expiration_offset) nonce_at 0
            handoff.refractor_tx_hashes
          >>= λ entries. ok (record {
            friend_account = friend_account;
            verifier_address = cred.verifier_address;
            public_key = cred.public_key;
            entries = entries;
          })
    ]
