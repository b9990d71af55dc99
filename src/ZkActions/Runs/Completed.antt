-- ===== src/ZkActions/Runs/Completed.antt =====
-- zkRecoveryActions.ts: what `completeZkRecovery` submits.
use nido.Base.{
  ℕ, ◌+◌, ◌≡◌, refl, sym, ap, inl, inr, List, [], ◌∷◌, Option, none, some, Result, ok, err, >>=-ok,
  checks-ok, Result-cases, if◌then◌else◌,
}
use mathlib.Core.Path.{subst}
use nido.Base.Decimal.{Text}
use nido.Base.Texts.{codes}
use nido.Signing.Entry.{AuthEntry, get_auth_entry, default_expiration_offset}
use nido.Signing.Submit.{
  Transaction, SubmitError, relayer_enabled, source_account, simulated_entries, hand_over,
}
use nido.Signing.Owner.{entry_result, relayer_expiration_offset}
use nido.ZkActions.Build.{
  ContractCall, add_context_rule, require_pubkey65, CompleteRecoveryArgs, CompleteRecoveryTxBuild,
  build_complete_recovery,
}
use nido.ZkActions.Sync.{build}
use nido.ZkActions.Staged.{Storage}
use nido.ZkActions.Actions.{
  World, zero_signer_auth_payload, zero_signer_entries, zero_signer_transaction,
  submit_zero_signer_completion,
}
use nido.ZkActions.Runs.{complete_zk_recovery, then_clear}

build_complete_recovery-eq :
    (args : CompleteRecoveryArgs) (built : CompleteRecoveryTxBuild)
    → build_complete_recovery args ≡ ok built
    → built ≡ record {
      operation =
          add_context_rule args.account
            (codes "Default")
            (codes "recovered")
            none
            ((args.webauthn_verifier_id, args.new_pubkey65) ∷ [])
            [];
      description = codes "Complete account recovery (install recovered passkey)";
      context_rule_ids = args.recovery_rule_id ∷ [];
    }
unfolding build_complete_recovery
build_complete_recovery-eq args built e = checks-ok (require_pubkey65 args.new_pubkey65) _ built e

module _ (world : World) where
  -- The offset of the expiration, of the relayer or of the node.
  abbrev pub completion_offset : ℕ
  completion_offset =
      if relayer_enabled world.network then relayer_expiration_offset else default_expiration_offset

  -- A transaction of one call whose first entry is the first of the assembled simulation, authorised
  -- by one rule and by no signer until a ledger at the offset from that simulation's.
  pub record IsZeroSigner (call : ContractCall) (rule_id : ℕ) (tx : Transaction ContractCall)
      : Type 0 where
    pub simulation : List AuthEntry
    pub latest_ledger : ℕ
    pub retval : Option ℕ
    pub template : AuthEntry
    pub first : AuthEntry
    pub others : List AuthEntry
    pub simulated : simulated_entries world.network call ≡ ok (simulation, (latest_ledger, retval))
    pub assembled : world.network.assemble call simulation ≡ template ∷ others
    pub same_template : first ≡ record template {
      signature = first.signature;
      signature_expiration_ledger = first.signature_expiration_ledger;
    }
    pub same_call : tx.call ≡ call
    pub entries : tx.auth ≡ first ∷ others
    pub payload : first.signature ≡ some (record { context_rule_ids = rule_id ∷ []; signers = [] })
    pub expires : first.signature_expiration_ledger ≡ latest_ledger + completion_offset

  abbrev handed : {A : Type 0} → A → Result SubmitError A
  handed x = ok x

  zero_signer_entries-IsZeroSigner :
      (call : ContractCall) (rule_id latest_ledger : ℕ) (retval : Option ℕ)
      (simulation entries signed : List AuthEntry)
      → simulated_entries world.network call ≡ ok (simulation, (latest_ledger, retval))
      → world.network.assemble call simulation ≡ entries
      → zero_signer_entries world entries latest_ledger (rule_id ∷ []) ≡ ok signed
      → IsZeroSigner call rule_id (record { call = call; auth = signed })
  unfolding zero_signer_entries zero_signer_auth_payload
  zero_signer_entries-IsZeroSigner call rule_id latest_ledger retval simulation [] signed ran made
        e =
      cc
  zero_signer_entries-IsZeroSigner call rule_id latest_ledger retval simulation (entry ∷ entries)
        signed ran made e =
      let same = ok_signed signed e in
      subst (λ (s : List AuthEntry). IsZeroSigner call rule_id (record { call = call; auth = s }))
        (sym same)
        (record {
          simulation = simulation;
          latest_ledger = latest_ledger;
          retval = retval;
          template = entry;
          first = _;
          others = entries;
          simulated = ran;
          assembled = made;
          same_template = refl;
          same_call = refl;
          entries = refl;
          payload = refl;
          expires = refl;
        })
    where
      ok_signed : {A : Type 0} {x : A} (y : A) → ok x ≡ handed y → y ≡ x
      ok_signed y e = cc

  zero_signer_transaction-IsZeroSigner :
      (call : ContractCall) (rule_id : ℕ) (tx : Transaction ContractCall)
      → zero_signer_transaction world call (rule_id ∷ []) ≡ ok tx
      → IsZeroSigner call rule_id tx
  unfolding zero_signer_transaction
  zero_signer_transaction-IsZeroSigner call rule_id tx e =
      let (source, source_ok, e1) = >>=-ok (source_account world.network) _ e in
      let ((entries, (latest_ledger, retval)), simulated, e2) =
        >>=-ok (simulated_entries world.network call) _ e1 in
      let (first, first_ok, e3) = >>=-ok (entry_result (get_auth_entry entries)) _ e2 in
      let (signed, signed_ok, e4) =
        >>=-ok
          (zero_signer_entries world (world.network.assemble call entries) latest_ledger
            (rule_id ∷ []))
          _ e3 in
      let same : record { call = call; auth = signed } ≡ tx = cc in
      subst (IsZeroSigner call rule_id) same (
        zero_signer_entries-IsZeroSigner call rule_id latest_ledger retval entries
          (world.network.assemble call entries) signed simulated refl signed_ok)

  then_clear-ok :
      (storage : Storage) (account : Text) (call : ContractCall) (answer : Result SubmitError Text)
      (hash : Text)
      → (then_clear world storage account call answer).result ≡ ok hash
      → answer ≡ ok hash
  unfolding then_clear
  then_clear-ok storage account call (err why) hash h = cc
  then_clear-ok storage account call (ok found) hash h = let same : found ≡ hash = cc in ap ok same

  submitted-IsZeroSigner :
      (call given : ContractCall) (rule_id : ℕ) (ids : List ℕ) (hash : Text)
      → given ≡ call
      → ids ≡ rule_id ∷ []
      → submit_zero_signer_completion world given ids ≡ ok hash
      → (tx : Transaction ContractCall) × IsZeroSigner call rule_id tx
        × (hand_over world.network tx ≡ ok hash)
  unfolding submit_zero_signer_completion
  submitted-IsZeroSigner call given rule_id ids hash same same_ids e =
      let (tx, made, handed) = >>=-ok (zero_signer_transaction world given ids) _ e in
      let made' =
        subst (λ (i : List ℕ). zero_signer_transaction world call i ≡ ok tx) same_ids
          (subst (λ (c : ContractCall). zero_signer_transaction world c ids ≡ ok tx) same made) in
      (tx, zero_signer_transaction-IsZeroSigner call rule_id tx made', handed)

  -- Every completion that returns handed over one transaction: the call of the account on itself
  -- that adds a default rule with the recovered key as its only signer and no policy, authorised by
  -- the recovery rule alone and by no signer, until a ledger at the offset from the simulation's.
  pub complete_zk_recovery-IsZeroSigner :
      (storage : Storage) (args : CompleteRecoveryArgs) (hash : Text)
      → (complete_zk_recovery world storage args).result ≡ ok hash
      → (tx : Transaction ContractCall) × IsZeroSigner
          (add_context_rule args.account
            (codes "Default")
            (codes "recovered")
            none
            ((args.webauthn_verifier_id, args.new_pubkey65) ∷ [])
            [])
          args.recovery_rule_id
          tx
        × (hand_over world.network tx ≡ ok hash)
  unfolding complete_zk_recovery then_clear submit_zero_signer_completion
  complete_zk_recovery-IsZeroSigner storage args hash e =
      elim (Result-cases (build_complete_recovery args)) [
        | inr (why, stop) ↦
            absurd
              (let clash : err (build why) ≡ ok hash = rw (complete_zk_recovery, stop) at e in cc)
        | inl (built, ready) ↦
            let run = rw (complete_zk_recovery, ready) at e in
            let shape = build_complete_recovery-eq args built ready in
            submitted-IsZeroSigner _ built.operation args.recovery_rule_id built.context_rule_ids
              hash (ap {B = ContractCall} (λ (b : CompleteRecoveryTxBuild). b.operation) shape)
              (ap {B = List ℕ} (λ (b : CompleteRecoveryTxBuild). b.context_rule_ids) shape)
              (then_clear-ok storage args.account built.operation
                (submit_zero_signer_completion world built.operation built.context_rule_ids) hash
                run)
      ]
