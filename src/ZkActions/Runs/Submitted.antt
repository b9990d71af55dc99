-- ===== src/ZkActions/Runs/Submitted.antt =====
-- zkRecoveryActions.ts: what the actions submit.
use nido.Base.{
  ℕ, ◌≡◌, refl, sym, ap, ◌∙◌, inl, inr, List, Option, none, some, Result, ok, err, >>=-ok,
  Result-cases, ◌==◌, ==_iff, Bool-cases, length,
}
use mathlib.Core.Path.{subst}
use nido.Base.Decimal.{Text}
use nido.ZkRecovery.Field.{Fr, Bytes}
use nido.Signing.Entry.{AuthEntry}
use nido.Signing.Submit.{SubmitError, hand_over}
use nido.Signing.Owner.{Signed, sign_call, sign_and_submit}
use nido.Signing.Owner.Agreement.{IsSigned, sign_call-IsSigned}
use nido.ZkActions.Sync.{ActionError, build, submit, lift, bad_key_length}
use nido.ZkActions.Sync.Opens.{lift-eq-ok}
use nido.ZkActions.Build.{
  ContractCall, initiate_recovery, cancel_recovery, burn_nullifier, ProofArgs,
  build_initiate_recovery, build_cancel_recovery, build_burn_nullifier,
}
use nido.ZkActions.Staged.{Storage}
use nido.ZkActions.Actions.{
  World, testnet_zk_recovery_delay_secs, prove_action, initiate_call, build_owner_authed_proof_tx,
  cancel_call, burn_call, submit_permissionless_op,
}
use nido.ZkActions.Actions.Authorized.{
  IsAuthorized, IsSmall, prove_action-IsAuthorized, ok_injective,
}
use nido.ZkActions.Runs.{
  initiate_zk_recovery, after_initiate, cancel_zk_recovery, burn_zk_nullifier, then_clear,
  owner_run, owner_submit,
}
use nido.ZkActions.Build.Operations.{
  build_initiate_recovery-operation, build_cancel_recovery-operation,
  build_burn_nullifier-operation,
}

module _ (world : World) where
  initiate_call-IsAuthorized :
      (account : Text) (secret : Fr) (key : Bytes) (call : ContractCall)
      → IsSmall world
      → initiate_call world account secret key ≡ ok call
      → (args : ProofArgs) × IsAuthorized world 1
          (some key)
          testnet_zk_recovery_delay_secs
          account
          secret
          args
        × (length key ≡ 65)
        × (call
            ≡ initiate_recovery args.controller_id account key args.nonce
                testnet_zk_recovery_delay_secs args.root args.nullifier args.proof)
  unfolding initiate_call
  initiate_call-IsAuthorized account secret key call small e =
      elim (Bool-cases (length key == 65)) [
        | inr other ↦ absurd (
            let clash : err (bad_key_length (length key)) ≡ ok call =
              rw (initiate_call, other) at e in
            cc)
        | inl long ↦
            let passed = rw (initiate_call, long) at e in
            let (args, proved, e1) =
              >>=-ok (prove_action world 1 (some key) testnet_zk_recovery_delay_secs account secret)
                _ passed in
            let (built, built_ok, e2) =
              >>=-ok (lift build (build_initiate_recovery args key testnet_zk_recovery_delay_secs))
                _ e1 in
            let authorized =
              prove_action-IsAuthorized world 1 (some key) testnet_zk_recovery_delay_secs account
                secret args small proved in
            let operation =
              build_initiate_recovery-operation args key testnet_zk_recovery_delay_secs built
                (lift-eq-ok build _ built built_ok) in
            (
              args,
              authorized,
              (==_iff (length key) 65).0 long,
              ok_injective call e2
                  ∙ operation
                  ∙ ap
                      (λ (a : Text).
                        initiate_recovery args.controller_id a key args.nonce
                          testnet_zk_recovery_delay_secs args.root args.nullifier args.proof)
                      authorized.same_account,
            )
      ]

  initiate_submitted :
      (storage : Storage) (account : Text) (key : Bytes) (made call : ContractCall)
      (answer : Result SubmitError (Text × Option ℕ))
      → (after_initiate world storage account key made answer).submitted ≡ some call
      → made ≡ call
  unfolding after_initiate
  initiate_submitted storage account key made call (err why) h = cc
  initiate_submitted storage account key made call (ok (hash, retval)) h = cc

  -- Every call that `initiateZkRecovery` submits is the `initiate_recovery` of this account and of a
  -- key of 65 bytes, at the contract's delay, with the arguments of an authorised proof: the
  -- account's leaf for the secret opens to the root that the contract reports, that root, the
  -- nullifier and the nonce are the call's, and the circuit was given the hash of this very call
  -- under action 1. The pool has at most 2^24 leaves.
  pub initiate_zk_recovery-IsAuthorized :
      (storage : Storage) (account : Text) (secret : Fr) (key : Bytes) (call : ContractCall)
      → IsSmall world
      → (initiate_zk_recovery world storage account secret key).submitted ≡ some call
      → (args : ProofArgs) × IsAuthorized world 1
          (some key)
          testnet_zk_recovery_delay_secs
          account
          secret
          args
        × (length key ≡ 65)
        × (call
            ≡ initiate_recovery args.controller_id account key args.nonce
                testnet_zk_recovery_delay_secs args.root args.nullifier args.proof)
  unfolding initiate_zk_recovery
  initiate_zk_recovery-IsAuthorized storage account secret key call small e =
      elim (Result-cases (initiate_call world account secret key)) [
        | inr (why, refused_run) ↦
            absurd
              (let clash : none ≡ some call = rw (initiate_zk_recovery, refused_run) at e in cc)
        | inl (made, ready) ↦
            let run = rw (initiate_zk_recovery, ready) at e in
            let same =
              initiate_submitted storage account key made call (submit_permissionless_op world made)
                run in
            rw (← same) (initiate_call-IsAuthorized account secret key made small ready)
      ]

  -- What the owner's signing flow handed over, and the hash that it returned.
  pub record IsHandedOver (account : Text) (call : ContractCall) (hash : Text) : Type 0 where
    pub signed : Signed ContractCall
    pub is_signed :
        IsSigned world.encoding world.network_passphrase world.network world.device account call
          signed
    pub handed : hand_over world.network signed.transaction ≡ ok hash

  abbrev pub KeepsEntries : Type 0
  KeepsEntries =
      (call : ContractCall) (entries : List AuthEntry)
      → world.network.assemble call entries ≡ entries

  owner_submit-IsHandedOver :
      (account : Text) (call : ContractCall) (hash : Text)
      → KeepsEntries
      → owner_submit world account call ≡ ok hash
      → IsHandedOver account call hash
  unfolding owner_submit sign_and_submit
  owner_submit-IsHandedOver account call hash keeps e =
      let ((h, digest), submitted, e1) =
        >>=-ok
          (sign_and_submit world.encoding world.network_passphrase world.network world.device
            account none call)
          _ e in
      let (signed, made, e2) =
        >>=-ok
          (sign_call world.encoding world.network_passphrase world.network world.device account none
            call)
          _ submitted in
      let (h', handed, e3) = >>=-ok (hand_over world.network signed.transaction) _ e2 in
      let same : h' ≡ hash = cc in
      record {
        signed = signed;
        is_signed =
            sign_call-IsSigned world.encoding world.network_passphrase world.network world.device
              account none call signed (keeps call) made;
        handed = handed ∙ ap ok same;
      }

  owner_run-IsHandedOver :
      (storage : Storage) (account : Text) (prepared : Result ActionError ContractCall)
      (hash : Text)
      → KeepsEntries
      → (owner_run world storage account prepared).result ≡ ok hash
      → (call : ContractCall) × (prepared ≡ ok call) × IsHandedOver account call hash
  unfolding then_clear
  owner_run-IsHandedOver storage account (err why) hash keeps e = cc
  owner_run-IsHandedOver storage account (ok call) hash keeps e = (
    call,
    refl,
    elim (Result-cases (owner_submit world account call)) [
      | inr (why, stop) ↦
          absurd (let clash : err (submit why) ≡ ok hash = rw (then_clear, stop) at e in cc)
      | inl (h, done) ↦
          let returned : ok h ≡ ok hash = rw (then_clear, done) at e in
          owner_submit-IsHandedOver account call hash keeps
            (done ∙ ap ok (ok_injective {A = Text} h (sym returned)))
    ],
  )

  -- Every cancellation that returns handed over one signature of this device's passkey on the
  -- `cancel_recovery` of this account, with the arguments of an authorised proof of action 2 that
  -- names no key and no delay: the account's leaf for the secret opens to the root that the contract
  -- reports, and root, nullifier and nonce are the call's. The pool has at most 2^24 leaves, and
  -- `assembleTransaction` keeps the simulation's entries on a stripped call.
  pub cancel_zk_recovery-IsAuthorized :
      (storage : Storage) (account : Text) (secret : Fr) (hash : Text)
      → IsSmall world
      → KeepsEntries
      → (cancel_zk_recovery world storage account secret).result ≡ ok hash
      → (args : ProofArgs) × IsAuthorized world 2 none 0 account secret args
        × IsHandedOver account
            (cancel_recovery args.controller_id account args.nonce args.root args.nullifier
              args.proof)
            hash
  unfolding cancel_zk_recovery cancel_call build_owner_authed_proof_tx
  cancel_zk_recovery-IsAuthorized storage account secret hash small keeps e =
      let (call, prepared, handed) =
        owner_run-IsHandedOver storage account (cancel_call world account secret) hash keeps e in
      let (args, proved, e1) = >>=-ok (prove_action world 2 none 0 account secret) _ prepared in
      let (built, built_ok, e2) = >>=-ok (lift build (build_cancel_recovery args)) _ e1 in
      let authorized = prove_action-IsAuthorized world 2 none 0 account secret args small proved in
      let same =
        ok_injective call e2
        ∙ build_cancel_recovery-operation args built (lift-eq-ok build _ built built_ok)
        ∙ ap
            (λ (a : Text).
              cancel_recovery args.controller_id a args.nonce args.root args.nullifier args.proof)
            authorized.same_account in
      (args, authorized, subst (λ (c : ContractCall). IsHandedOver account c hash) same handed)

  -- Every `burnZkNullifier` that returns handed over one signature of this device's passkey on the
  -- `burn_nullifier` of this account, with the arguments of an authorised proof of action 3 that
  -- names no key and no delay. The conditions are those of a cancellation.
  pub burn_zk_nullifier-IsAuthorized :
      (storage : Storage) (account : Text) (secret : Fr) (hash : Text)
      → IsSmall world
      → KeepsEntries
      → (burn_zk_nullifier world storage account secret).result ≡ ok hash
      → (args : ProofArgs) × IsAuthorized world 3 none 0 account secret args
        × IsHandedOver account
            (burn_nullifier args.controller_id account args.nonce args.root args.nullifier
              args.proof)
            hash
  unfolding burn_zk_nullifier burn_call build_owner_authed_proof_tx
  burn_zk_nullifier-IsAuthorized storage account secret hash small keeps e =
      let (call, prepared, handed) =
        owner_run-IsHandedOver storage account (burn_call world account secret) hash keeps e in
      let (args, proved, e1) = >>=-ok (prove_action world 3 none 0 account secret) _ prepared in
      let (built, built_ok, e2) = >>=-ok (lift build (build_burn_nullifier args)) _ e1 in
      let authorized = prove_action-IsAuthorized world 3 none 0 account secret args small proved in
      let same =
        ok_injective call e2
        ∙ build_burn_nullifier-operation args built (lift-eq-ok build _ built built_ok)
        ∙ ap
            (λ (a : Text).
              burn_nullifier args.controller_id a args.nonce args.root args.nullifier args.proof)
            authorized.same_account in
      (args, authorized, subst (λ (c : ContractCall). IsHandedOver account c hash) same handed)
