-- ===== src/Recovery/Submit.antt =====
-- `submitRotation` of packages/frontend/src/lib/recoveryActions.ts: the staged transactions are signed
-- with the friends' replies and handed over one after the other. What the relayer and the network
-- answer are parameters. Every change of a staged transaction is followed by the save of the staging,
-- so the state that a run leaves is also the one that is stored.
pub mod Marks
pub mod Once
pub mod Order
pub mod Finish
use nido.Base.{
  ℕ, zero, suc, List, [], ◌∷◌, ◌++◌, Option, none, some, Bool, true, false, ◌&&◌, not, Result, ok,
  err, ◌>>=◌, ◌==◌, ltb, if◌then◌else◌, length, get_elem?,
}
use nido.Base.Decimal.{Text}
use nido.Base.Dict.{values}
use nido.ZkRecovery.Field.{Bytes}
use nido.Recovery.{FriendEntry, FriendSignature, StagedRotationTx, RotationStaging, truthy}

pub data SubmitError : Type 0 where
  no_rotation missing_entry no_transaction_hash no_transaction_id : SubmitError
  no_signers invalid_address invalid_nonce invalid_envelope : SubmitError
  send_error wait_error simulation_failed submit_rejected : SubmitError
  need_signatures : (threshold have : ℕ) → SubmitError
  incomplete_reply : (friend : Text) (covered staged : ℕ) → SubmitError
  not_landed : ℕ → SubmitError

-- The nested entry of `buildFriendAuthEntry`: the credentials, the invocation that they authorise
-- (`__check_auth` of the account, on the digest), and the passkey's answer.
pub record FriendAuthEntry : Type 0 where
  pub address : Text
  pub nonce : Text
  pub signature_expiration_ledger : ℕ
  pub invoked_account : Text
  pub invoked_digest_hex : Text
  pub context_rule_ids : List ℕ
  pub verifier_address : Text
  pub public_key : Bytes
  pub authenticator_data : Bytes
  pub client_data_json : Bytes
  pub signature : Bytes

-- A staged transaction with its auth entries: the root's expiration, rules and signers, and one
-- nested entry for each friend.
pub record SignedRotation : Type 0 where
  pub tx_xdr : Text
  pub signature_expiration_ledger : ℕ
  pub context_rule_ids : List ℕ
  pub signers : List Text
  pub friend_entries : List FriendAuthEntry

-- What the Stellar SDK reads: an address (`Address.fromString`), a nonce (`Int64.fromString`), and an
-- envelope of one invocation with its root entry (`TransactionEnvelope.fromXDR` and what follows).
-- Where it does not, it throws.
pub record Codec : Type 0 where
  pub reads_address : Text → Bool
  pub reads_nonce : Text → Bool
  pub reads_envelope : Text → Bool

-- The entry of one friend: its own rule 0, and the call of `__check_auth` on the account.
abbrev pub friend_auth_entry :
    (recovering_account : Text)
    → FriendSignature
    → FriendEntry
    → (digest_hex : Text) → FriendAuthEntry
friend_auth_entry recovering_account fs entry digest_hex = record {
  address = fs.friend_account;
  nonce = entry.nonce;
  signature_expiration_ledger = entry.signature_expiration_ledger;
  invoked_account = recovering_account;
  invoked_digest_hex = digest_hex;
  context_rule_ids = 0 ∷ [];
  verifier_address = fs.verifier_address;
  public_key = fs.public_key;
  authenticator_data = entry.authenticator_data;
  client_data_json = entry.client_data_json;
  signature = entry.signature;
}

unfoldable pub build_friend_auth_entry :
    Codec
    → (recovering_account : Text) → FriendSignature
    → FriendEntry
    → (digest_hex : Text) → Result SubmitError FriendAuthEntry
build_friend_auth_entry codec recovering_account fs entry digest_hex =
    if codec.reads_address recovering_account
      && codec.reads_address fs.verifier_address
      && codec.reads_address fs.friend_account
    then (if codec.reads_nonce entry.nonce
        then ok (friend_auth_entry recovering_account fs entry digest_hex)
        else err invalid_nonce)
    else err invalid_address

unfoldable pub friend_accounts : List FriendSignature → List Text
friend_accounts [] = []
friend_accounts (c ∷ contributors) = c.friend_account ∷ friend_accounts contributors

unfoldable pub all_addresses : Codec → List Text → Bool
all_addresses codec [] = true
all_addresses codec (address ∷ addresses) =
    codec.reads_address address && all_addresses codec addresses

-- The signers of the root's payload (`buildAuthPayloadScVal`): one at least.
unfoldable pub payload_signers : Codec → List FriendSignature → Result SubmitError (List Text)
payload_signers codec contributors =
    if length contributors == 0
    then err no_signers
    else (if all_addresses codec (friend_accounts contributors)
        then ok (friend_accounts contributors)
        else err invalid_address)

unfoldable pub build_entries :
    Codec → Text → Text → ℕ → List FriendSignature → Result SubmitError (List FriendAuthEntry)
build_entries codec account digest_hex i [] = ok []
build_entries codec account digest_hex i (c ∷ contributors) =
    let rest = build_entries codec account digest_hex i contributors in
    elim (get_elem? c.entries i) [
      | none ↦ err missing_entry
      | some entry ↦ build_friend_auth_entry codec account c entry digest_hex >>= λ made.
          rest >>= λ entries. ok (made ∷ entries)
    ]

abbrev pub signed_rotation :
    RotationStaging → StagedRotationTx → List Text → List FriendAuthEntry → SignedRotation
signed_rotation staging tx signers entries = record {
  tx_xdr = tx.tx_xdr;
  signature_expiration_ledger = staging.parent_signature_expiration_ledger;
  context_rule_ids = staging.recovery_rule_id ∷ [];
  signers = signers;
  friend_entries = entries;
}

unfoldable pub sign_tx :
    Codec → RotationStaging → ℕ → StagedRotationTx → Result SubmitError SignedRotation
sign_tx codec staging i tx = payload_signers codec (values staging.collected) >>= λ signers.
    if codec.reads_envelope tx.tx_xdr
    then (build_entries codec staging.account tx.parent_auth_digest_hex i (values staging.collected)
        >>= λ entries. ok (signed_rotation staging tx signers entries))
    else err invalid_envelope

-- What `submitSorobanTransaction` does. It may throw before the request is posted, or after it, when
-- the relayer may hold the transaction although its response is lost, no JSON, an error or empty;
-- `reached` says which.
pub data SendAnswer : Type 0 where
  send_failed : (reached : Bool) → SendAnswer
  accepted : (transaction_id hash : Option Text) → SendAnswer

pub data WaitAnswer : Type 0 where
  wait_failed : WaitAnswer
  confirmed : (hash : Option Text) → WaitAnswer

pub record RelayerAnswers : Type 0 where
  pub send : ℕ → SignedRotation → SendAnswer
  pub wait : ℕ → Text → WaitAnswer

pub data TxStatus : Type 0 where
  unseen landed failed : TxStatus

-- A call of the network may also throw, before or after the node got the transaction.
pub data ClassicAnswer : Type 0 where
  threw : (reached : Bool) → ClassicAnswer
  simulation_error rejected : ClassicAnswer
  pending : (hash : Text) (status : ℕ → TxStatus) → ClassicAnswer

pub data Network : Type 0 where
  relayer : RelayerAnswers → Network
  classic : (ℕ → SignedRotation → ClassicAnswer) → Network

-- What the loop's body does to one transaction: the transaction after it, whether it may have been
-- handed over in this run, and the hash or the error.
pub record TxRun : Type 0 where
  pub after : StagedRotationTx
  pub sent : Bool
  pub outcome : Result SubmitError Text

unfoldable pub submitted : StagedRotationTx → Text → StagedRotationTx
submitted tx hash = record tx { submitted_hash = some hash }

unfoldable pub with_job : StagedRotationTx → Option Text → StagedRotationTx
with_job tx none = tx
with_job tx (some id) = record tx { relayer_tx_id = some id }

abbrev pub stop : StagedRotationTx → Bool → SubmitError → TxRun
stop tx sent error = record { after = tx; sent = sent; outcome = err error }

abbrev pub finish : StagedRotationTx → Bool → Text → TxRun
finish tx sent hash = record { after = submitted tx hash; sent = sent; outcome = ok hash }

unfoldable pub after_wait : StagedRotationTx → Bool → WaitAnswer → TxRun
after_wait tx sent wait_failed = stop tx sent wait_error
after_wait tx sent (confirmed hash) = elim (truthy hash) [
  | none ↦ stop tx sent no_transaction_hash
  | some h ↦ finish tx sent h
]

unfoldable pub after_send : (Text → WaitAnswer) → StagedRotationTx → SendAnswer → TxRun
after_send wait tx (send_failed reached) = stop tx reached send_error
after_send wait tx (accepted id hash) = elim (truthy hash) [
  | some h ↦ finish (with_job tx (truthy id)) true h
  | none ↦ elim (truthy id) [
    | none ↦ stop tx true no_transaction_id
    | some job ↦ after_wait (with_job tx (some job)) true (wait job)
  ]
]

-- The status after at most `tries` more reads.
unfoldable pub poll : (ℕ → TxStatus) → ℕ → ℕ → TxStatus
poll status j zero = status j
poll status j (suc tries) =
    let rest = poll status (suc j) tries in
    elim (status j) [ unseen ↦ rest | landed ↦ landed | failed ↦ failed ]

unfoldable pub after_classic : ℕ → StagedRotationTx → ClassicAnswer → TxRun
after_classic i tx (threw reached) = stop tx reached send_error
after_classic i tx simulation_error = stop tx false simulation_failed
after_classic i tx rejected = stop tx false submit_rejected
after_classic i tx (pending hash status) = elim (poll status 0 30) [
  | landed ↦ finish tx true hash
  | unseen ↦ stop tx true (not_landed i)
  | failed ↦ stop tx true (not_landed i)
]

unfoldable pub hand_over : Network → ℕ → StagedRotationTx → SignedRotation → TxRun
hand_over (relayer answers) i tx signed = elim (truthy tx.relayer_tx_id) [
  | some job ↦ after_wait tx false (answers.wait i job)
  | none ↦ after_send (answers.wait i) tx (answers.send i signed)
]
hand_over (classic answers) i tx signed = after_classic i tx (answers i signed)

unfoldable pub submit_tx : Codec → Network → RotationStaging → ℕ → StagedRotationTx → TxRun
submit_tx codec network staging i tx = elim (truthy tx.submitted_hash) [
  | some hash ↦ record { after = tx; sent = false; outcome = ok hash }
  | none ↦ elim (sign_tx codec staging i tx) [
    | err error ↦ stop tx false error
    | ok signed ↦ hand_over network i tx signed
  ]
]

pub record LoopRun : Type 0 where
  pub txs : List StagedRotationTx
  pub sent : List ℕ
  pub result : Result SubmitError Text

abbrev pub sent_now : ℕ → Bool → List ℕ
sent_now i true = i ∷ []
sent_now i false = []

-- The loop from index `i` on; `last` is `lastHash`.
unfoldable pub run_txs : (ℕ → StagedRotationTx → TxRun) → ℕ → List StagedRotationTx → Text → LoopRun
run_txs run i [] last = record { txs = []; sent = []; result = ok last }
run_txs run i (tx ∷ txs) last = elim (run i tx).outcome [
  | err error ↦ record {
    txs = (run i tx).after ∷ txs;
    sent = sent_now i (run i tx).sent;
    result = err error;
  }
  | ok hash ↦ record {
    txs = (run i tx).after ∷ (run_txs run (suc i) txs hash).txs;
    sent = sent_now i (run i tx).sent ++ (run_txs run (suc i) txs hash).sent;
    result = (run_txs run (suc i) txs hash).result;
  }
]

pub record SubmitRun : Type 0 where
  pub stored : Option RotationStaging
  pub sent : List ℕ
  pub result : Result SubmitError Text

-- The first reply that does not cover the transactions.
unfoldable pub incomplete : ℕ → List FriendSignature → Option FriendSignature
incomplete count [] = none
incomplete count (c ∷ contributors) =
    let rest = incomplete count contributors in if length c.entries == count then rest else some c

abbrev pub refuse : Option RotationStaging → SubmitError → SubmitRun
refuse stored error = record { stored = stored; sent = []; result = err error }

-- A run that returns clears the staging.
abbrev pub close : RotationStaging → LoopRun → SubmitRun
close staging run = record {
  stored = elim run.result [ ok hash ↦ none | err error ↦ some (record staging { txs = run.txs }) ];
  sent = run.sent;
  result = run.result;
}

unfoldable pub submit_rotation : Codec → Network → Option RotationStaging → SubmitRun
submit_rotation codec network none = refuse none no_rotation
submit_rotation codec network (some staging) =
    if ltb (length (values staging.collected)) staging.threshold
    then refuse (some staging)
        (need_signatures staging.threshold (length (values staging.collected)))
    else elim (incomplete (length staging.txs) (values staging.collected)) [
      | some c ↦
          refuse (some staging)
            (incomplete_reply c.friend_account (length c.entries) (length staging.txs))
      | none ↦ close staging (run_txs (submit_tx codec network staging) 0 staging.txs [])
    ]
