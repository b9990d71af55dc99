-- ===== src/Recovery/Signing/Agreement.antt =====
-- The originator and the friends of a recovery compute the same digests (`prepareRotation` and
-- `signRotationAsFriend` of packages/frontend/src/lib/recoveryActions.ts).
use nido.Base.{
  Result, ℕ, ◌<◌, List, [], ◌∷◌, Option, none, some, not, ok, err, ◌>>=◌, >>=-ok, guard-ok, ◌≡◌,
  refl, sym, ◌∙◌, ap, All, inl, inr, Option-cases, arith,
}
use mathlib.Core.Path.{subst}
use nido.Base.Decimal.{Text}
use nido.Base.Texts.{same_text, codes}
use nido.Rotation.{RotationCall, RotationRequest}
use nido.Policy.{ChainRule}
use nido.Recovery.{StagedRotationTx, RotationStaging}
use nido.Recovery.Rules.{
  RecoveryError, simulation_error, fetch_error, unsupported_network, AuthEntry,
  validate_recovery_tx_envelope, enrich_rotation_request,
}
use nido.Recovery.Signing.Envelope.{validate-root_entry}
use nido.Recovery.Signing.{
  Codec, Assembled, Staged, root_entry, parent_digest, stage_tx, stage_txs, frozen_last,
  frozen_expiration, PrepareArgs, prepare_rotation, stage_rotation, plan_or_throw, RefractorTx,
  RotationHandoff, prepared, handoff_of, friend_digest, digest_of_tx, stored_as,
}

-- A store that answers for a hash with the envelope that it gave the hash to.
abbrev pub IsFaithful : (store : Text → Option Text) (fetch : Text → Option RefractorTx) → Type 0
IsFaithful store fetch =
    (xdr hash : Text) (tx : RefractorTx)
    → store xdr ≡ some hash
    → fetch hash ≡ some tx
    → tx.xdr ≡ xdr

module _ (codec : Codec) (simulate : RotationCall → Option Assembled) (store : Text → Option Text)
    (url_of : Text → Text) (rule_id : ℕ) where
  -- A staged transaction whose digest is that of its own root entry at `expiration`.
  pub record IsStaged (expiration : ℕ) (tx : StagedRotationTx) : Type 0 where
    pub entry : AuthEntry
    pub root : root_entry (codec.operations_of tx.tx_xdr) ≡ ok entry
    pub held : store tx.tx_xdr ≡ some tx.refractor_tx_hash
    pub digest : tx.parent_auth_digest_hex ≡ parent_digest codec entry expiration rule_id

  stored_as-IsStaged :
      (expiration : ℕ) (tx_xdr : Text) (entry : AuthEntry) (answer : Option Text)
      (tx : StagedRotationTx)
      → root_entry (codec.operations_of tx_xdr) ≡ ok entry
      → store tx_xdr ≡ answer
      → stored_as url_of tx_xdr (parent_digest codec entry expiration rule_id) answer ≡ ok tx
      → IsStaged expiration tx
  unfolding stored_as
  stored_as-IsStaged expiration tx_xdr entry none tx root held h = cc
  stored_as-IsStaged expiration tx_xdr entry (some hash) tx root held h =
      let made : StagedRotationTx = record {
        tx_xdr = tx_xdr;
        refractor_tx_hash = hash;
        refractor_tx_url = url_of hash;
        parent_auth_digest_hex = parent_digest codec entry expiration rule_id;
        relayer_tx_id = none;
        submitted_hash = none;
      } in
      let same : made ≡ tx = cc in
      subst (IsStaged expiration) same
        (record { entry = entry; root = root; held = held; digest = refl })

  stage_tx-IsStaged :
      (expiration : ℕ) (assembled : Assembled) (tx : StagedRotationTx)
      → stage_tx codec simulate store url_of rule_id expiration assembled ≡ ok tx
      → IsStaged expiration tx
  unfolding stage_tx
  stage_tx-IsStaged expiration assembled tx h =
      let (entry, root, made) =
        >>=-ok (root_entry (codec.operations_of assembled.tx_xdr))
          (λ entry.
            stored_as url_of assembled.tx_xdr (parent_digest codec entry expiration rule_id)
              (store assembled.tx_xdr))
          h in
      stored_as-IsStaged expiration assembled.tx_xdr entry (store assembled.tx_xdr) tx root refl
        made

  -- Every staged transaction has the digest at the one expiration that the loop ends with.
  abbrev pub AreStaged : Staged → Type 0
  AreStaged staged = All (IsStaged staged.expiration) staged.txs

  step-AreStaged :
      (expiration : ℕ) (tx : StagedRotationTx) (rest staged : Staged)
      → IsStaged expiration tx
      → rest.expiration ≡ expiration
      → AreStaged rest
      → record { last_ledger = rest.last_ledger; expiration = rest.expiration; txs = tx ∷ rest.txs }
        ≡ staged
      → AreStaged staged × (staged.expiration ≡ expiration)
  step-AreStaged expiration tx rest staged made kept all same = (
    subst AreStaged same (subst (λ e. IsStaged e tx) (sym kept) made, all),
    sym (ap {B = ℕ} (λ s. s.expiration) same) ∙ kept,
  )

  frozen_pos : (expiration latest : ℕ) → 0 < frozen_expiration expiration latest
  frozen_pos expiration latest = ground arith

  frozen_same :
      (expiration latest : ℕ) → 0 < expiration → frozen_expiration expiration latest ≡ expiration
  frozen_same expiration latest h = ground arith

  stage_txs-AreStaged :
      (last expiration : ℕ) (operations : List RotationCall) (staged : Staged)
      → stage_txs codec simulate store url_of rule_id last expiration operations ≡ ok staged
      → AreStaged staged × (0 < expiration → staged.expiration ≡ expiration)
  unfolding stage_txs
  stage_txs-AreStaged last expiration [] staged h =
      let same : record { last_ledger = last; expiration = expiration; txs = [] } ≡ staged = cc in
      (subst AreStaged same tt, λ pos. sym (ap {B = ℕ} (λ s. s.expiration) same))
  stage_txs-AreStaged last expiration (operation ∷ operations) staged h =
      elim (Option-cases (simulate operation)) [
        | inl e ↦
            absurd (let clash : err simulation_error ≡ ok staged = rw (stage_txs, e) at h in cc)
        | inr (assembled, e) ↦
            let now = frozen_expiration expiration assembled.latest_ledger in
            let later =
              stage_txs codec simulate store url_of rule_id
                (frozen_last expiration last assembled.latest_ledger) now operations in
            let (tx, made, more) =
              >>=-ok (stage_tx codec simulate store url_of rule_id now assembled)
                (λ tx. later >>= λ rest. ok (record {
                  last_ledger = rest.last_ledger;
                  expiration = rest.expiration;
                  txs = tx ∷ rest.txs;
                }))
                (rw (stage_txs, e) at h) in
            let (rest, staged_rest, done) =
              >>=-ok later
                (λ rest. ok (record {
                  last_ledger = rest.last_ledger;
                  expiration = rest.expiration;
                  txs = tx ∷ rest.txs;
                }))
                more in
            let (all, kept) =
              stage_txs-AreStaged (frozen_last expiration last assembled.latest_ledger) now
                operations rest staged_rest in
            let (result, ends) =
              step-AreStaged now tx rest staged (stage_tx-IsStaged now assembled tx made)
                (kept (frozen_pos expiration assembled.latest_ledger)) all (cc) in
            (result, λ pos. ends ∙ frozen_same expiration assembled.latest_ledger pos)
      ]

  digest_of_tx-agrees :
      (handoff : RotationHandoff) (staged : StagedRotationTx) (tx : RefractorTx) (digest : Text)
      → IsStaged handoff.parent_signature_expiration_ledger staged
      → handoff.recovery_rule_id ≡ rule_id
      → tx.xdr ≡ staged.tx_xdr
      → digest_of_tx codec handoff (some tx) ≡ ok digest
      → digest ≡ staged.parent_auth_digest_hex
  unfolding digest_of_tx
  digest_of_tx-agrees handoff staged tx digest made rule same h =
      let expiration = handoff.parent_signature_expiration_ledger in
      let rest =
        guard-ok (not (same_text tx.network (codes "testnet"))) unsupported_network
          (validate_recovery_tx_envelope (codec.operations_of tx.xdr) handoff.account >>= λ entry.
            ok (parent_digest codec entry expiration handoff.recovery_rule_id))
          h in
      let (entry, valid, computed) =
        >>=-ok (validate_recovery_tx_envelope (codec.operations_of tx.xdr) handoff.account)
          (λ entry. ok (parent_digest codec entry expiration handoff.recovery_rule_id)) rest in
      let root = validate-root_entry (codec.operations_of tx.xdr) handoff.account entry valid in
      let moved = ap (λ xdr. root_entry (codec.operations_of xdr)) same in
      let both : ok entry ≡ ok made.entry = sym root ∙ moved ∙ made.root in
      let one : entry ≡ made.entry = cc in
      let value : parent_digest codec entry expiration handoff.recovery_rule_id ≡ digest = cc in
      sym value
      ∙ ap (λ e. parent_digest codec e expiration handoff.recovery_rule_id) one
      ∙ ap (parent_digest codec made.entry expiration) rule
      ∙ sym made.digest

-- A digest that a friend computes from the handoff for a staged transaction.
abbrev pub Agrees :
    Codec → (Text → Option RefractorTx) → RotationHandoff → StagedRotationTx → Type 0
Agrees codec fetch handoff tx =
    (digest : Text)
    → friend_digest codec handoff fetch tx.refractor_tx_hash ≡ ok digest
    → digest ≡ tx.parent_auth_digest_hex

module _ (codec : Codec) (simulate : RotationCall → Option Assembled) (store : Text → Option Text)
    (url_of : Text → Text) (fetch : Text → Option RefractorTx)
    (faithful : IsFaithful store fetch) where
  staged-Agrees :
      (handoff : RotationHandoff) (tx : StagedRotationTx)
      → IsStaged codec simulate store url_of handoff.recovery_rule_id
          handoff.parent_signature_expiration_ledger tx
      → Agrees codec fetch handoff tx
  unfolding friend_digest digest_of_tx
  staged-Agrees handoff tx made digest h = elim (Option-cases (fetch tx.refractor_tx_hash)) [
    | inl e ↦ absurd (let clash : err fetch_error ≡ ok digest = rw (friend_digest, e) at h in cc)
    | inr (answer, e) ↦
        digest_of_tx-agrees codec simulate store url_of handoff.recovery_rule_id handoff tx answer
          digest made refl (faithful tx.tx_xdr tx.refractor_tx_hash answer made.held e)
          (rw (friend_digest, e) at h)
  ]

  All-Agrees :
      (handoff : RotationHandoff) (txs : List StagedRotationTx)
      → All
          (IsStaged codec simulate store url_of handoff.recovery_rule_id
            handoff.parent_signature_expiration_ledger)
          txs
      → All (Agrees codec fetch handoff) txs
  All-Agrees handoff [] h = tt
  All-Agrees handoff (tx ∷ txs) (p, h) = (staged-Agrees handoff tx p, All-Agrees handoff txs h)

  stage_rotation-Agrees :
      (args : PrepareArgs) (operations : List RotationCall) (staging : RotationStaging)
      (relay_base_url : Text)
      → stage_rotation codec simulate store url_of args operations ≡ ok staging
      → All (Agrees codec fetch (handoff_of staging relay_base_url)) staging.txs
  unfolding stage_rotation handoff_of
  stage_rotation-Agrees args operations staging relay_base_url h =
      let (staged, looped, made) =
        >>=-ok (stage_txs codec simulate store url_of args.recovery_rule_id 0 0 operations)
          (λ staged. ok (prepared args staged)) h in
      let (all, kept) =
        stage_txs-AreStaged codec simulate store url_of args.recovery_rule_id 0 0 operations staged
          looped in
      let same : prepared args staged ≡ staging = cc in
      subst (λ s. All (Agrees codec fetch (handoff_of s relay_base_url)) s.txs) same
        (All-Agrees (handoff_of (prepared args staged) relay_base_url) staged.txs all)

  -- Where the store of transactions is faithful, a friend that gets a digest from the handoff of a
  -- prepared rotation, for one of its hashes, gets the digest that the originator staged for that
  -- transaction: all of them under the one expiration that the first simulation froze.
  pub prepare_rotation-Agrees :
      (args : PrepareArgs) (chain : Result RecoveryError (List ChainRule))
      (policy : Result RecoveryError Text) (request : RotationRequest) (staging : RotationStaging)
      (relay_base_url : Text)
      → prepare_rotation codec simulate store url_of args chain policy request ≡ ok staging
      → All (Agrees codec fetch (handoff_of staging relay_base_url)) staging.txs
  unfolding prepare_rotation
  prepare_rotation-Agrees args chain policy request staging relay_base_url h =
      let (completed, enriched, rest) =
        >>=-ok (enrich_rotation_request chain policy request)
          (λ completed. plan_or_throw completed >>= λ operations.
            stage_rotation codec simulate store url_of args operations)
          h in
      let (operations, planned, made) =
        >>=-ok (plan_or_throw completed)
          (λ operations. stage_rotation codec simulate store url_of args operations) rest in
      stage_rotation-Agrees args operations staging relay_base_url made
