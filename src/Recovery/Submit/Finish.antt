-- ===== src/Recovery/Submit/Finish.antt =====
-- A submission that is run again finishes (`submitRotation` of
-- packages/frontend/src/lib/recoveryActions.ts), wherever the earlier runs stopped.
use nido.Base.{ℕ, Option, some, true, Result, ok, ◌≡◌, All, length, ◌⊎◌}
use nido.Base.Decimal.{Text}
use nido.Base.Dict.{values}
use nido.Recovery.{FriendSignature, FriendEntry, StagedRotationTx, RotationStaging, truthy}
use nido.Recovery.Submit.{Codec, SubmitError, accepted, confirmed, RelayerAnswers, SignedRotation}

-- A relayer that takes every transaction and confirms every job with a hash.
pub record IsObliging (answers : RelayerAnswers) : Type 0 where
  pub takes :
      (i : ℕ) (signed : SignedRotation)
      → (id : Option Text) × (hash : Option Text) × (answers.send i signed ≡ accepted id hash)
        × (((h : Text) × (truthy hash ≡ some h)) ⊎ ((job : Text) × (truthy id ≡ some job)))
  pub confirms :
      (i : ℕ) (job : Text)
      → (hash : Option Text) × (h : Text) × (answers.wait i job ≡ confirmed hash)
        × (truthy hash ≡ some h)

abbrev pub Covers : ℕ → FriendSignature → Type 0
Covers count c = length c.entries ≡ count

-- What the Stellar SDK reads of a reply: its two addresses, and the nonce of every entry.
pub record IsReadableReply (codec : Codec) (c : FriendSignature) : Type 0 where
  pub friend : codec.reads_address c.friend_account ≡ true
  pub verifier : codec.reads_address c.verifier_address ≡ true
  pub nonces : All (λ (entry : FriendEntry). codec.reads_nonce entry.nonce ≡ true) c.entries

abbrev pub IsReadableTx : Codec → StagedRotationTx → Type 0
IsReadableTx codec tx = codec.reads_envelope tx.tx_xdr ≡ true

-- What the Stellar SDK reads of a staging: the account, the replies and the transactions.
pub record IsReadable (codec : Codec) (staging : RotationStaging) : Type 0 where
  pub account : codec.reads_address staging.account ≡ true
  pub replies : All (IsReadableReply codec) (values staging.collected)
  pub txs : All (IsReadableTx codec) staging.txs

abbrev pub Returns : Result SubmitError Text → Type 0
Returns result = (hash : Text) × (result ≡ ok hash)
