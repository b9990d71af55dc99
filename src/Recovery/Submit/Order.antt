-- ===== src/Recovery/Submit/Order.antt =====
-- The order of `submitRotation` (packages/frontend/src/lib/recoveryActions.ts): a transaction is handed
-- over only when every earlier one is confirmed.
use nido.Base.{
  Result-cases, ℕ, suc, List, [], ◌∷◌, Option, none, some, Bool, true, false, ok, err, ◌≡◌, ◌≢◌,
  refl, sym, ◌∙◌, All, ◌⊎◌, inl, inr, Option-cases, ltb, length, Bool-cases,
}
use mathlib.Core.Path.{subst}
use nido.Base.Decimal.{Text}
use nido.Base.Dict.{values}
use nido.Recovery.{StagedRotationTx, RotationStaging, truthy}
use nido.Recovery.Submit.{
  SubmitError, SendAnswer, send_failed, accepted, WaitAnswer, wait_failed, confirmed, TxStatus,
  unseen, landed, failed, Codec, threw, ClassicAnswer, simulation_error, rejected, pending, Network,
  relayer, classic, TxRun, LoopRun, submitted, with_job, stop, finish, after_wait, after_send,
  after_classic, poll, hand_over, submit_tx, sign_tx, SignedRotation, run_txs, wait_error,
  no_transaction_hash, no_transaction_id, send_error, simulation_failed, submit_rejected,
  not_landed, submit_rotation, incomplete, close,
}

abbrev pub IsConfirmed : StagedRotationTx → Type 0
IsConfirmed tx = truthy tx.submitted_hash ≢ none

pub record IsUntouched (tx : StagedRotationTx) : Type 0 where
  pub no_job : truthy tx.relayer_tx_id ≡ none
  pub no_hash : truthy tx.submitted_hash ≡ none

-- Confirmed transactions, then at most one that a run may have handed over, then untouched ones.
unfoldable pub InOrder : List StagedRotationTx → Type 0
InOrder [] = Unit
InOrder (tx ∷ txs) = (IsConfirmed tx × InOrder txs) ⊎ All IsUntouched txs

-- The hash of a transaction that the network holds is not empty.
unfoldable pub HasHashes : Network → Type 0
HasHashes (relayer answers) = Unit
HasHashes (classic answers) =
    (i : ℕ) (signed : SignedRotation) (hash : Text) (status : ℕ → TxStatus)
    → answers i signed ≡ pending hash status
    → truthy (some hash) ≡ some hash

pub truthy_again : (o : Option Text) (h : Text) → truthy o ≡ some h → truthy (some h) ≡ some h
truthy_again none h e = cc
truthy_again (some []) h e = cc
truthy_again (some (c ∷ s)) h e = let same : (c ∷ s) ≡ h = cc in rw⁻¹ same refl

TxStatus-cases : (s : TxStatus) → (s ≡ landed) ⊎ ((s ≡ unseen) ⊎ (s ≡ failed))
TxStatus-cases landed = inl refl
TxStatus-cases unseen = inr (inl refl)
TxStatus-cases failed = inr (inr refl)

abbrev pub Confirms : TxRun → Type 0
Confirms run = (hash : Text) → run.outcome ≡ ok hash → IsConfirmed run.after

finish-Confirms :
    (tx : StagedRotationTx) (sent : Bool) (h : Text)
    → truthy (some h) ≡ some h
    → Confirms (finish tx sent h)
unfolding submitted
finish-Confirms tx sent h full hash e = λ empty. let clash : some h ≡ none = sym full ∙ empty in cc

stop-Confirms :
    (tx : StagedRotationTx) (sent : Bool) (error : SubmitError) → Confirms (stop tx sent error)
stop-Confirms tx sent error hash e = cc

after_wait-Confirms :
    (tx : StagedRotationTx) (sent : Bool) (answer : WaitAnswer)
    → Confirms (after_wait tx sent answer)
unfolding after_wait
after_wait-Confirms tx sent wait_failed = stop-Confirms tx sent wait_error
after_wait-Confirms tx sent (confirmed hash) = elim (Option-cases (truthy hash)) [
  | inl e ↦ rw (after_wait, e) (stop-Confirms tx sent no_transaction_hash)
  | inr (h, e) ↦ rw (after_wait, e) (finish-Confirms tx sent h (truthy_again hash h e))
]

after_send-Confirms :
    (wait : Text → WaitAnswer) (tx : StagedRotationTx) (answer : SendAnswer)
    → Confirms (after_send wait tx answer)
unfolding after_send
after_send-Confirms wait tx (send_failed reached) = stop-Confirms tx reached send_error
after_send-Confirms wait tx (accepted id hash) = elim (Option-cases (truthy hash)) [
  | inr (h, e) ↦
      rw (after_send, e) (finish-Confirms (with_job tx (truthy id)) true h (truthy_again hash h e))
  | inl e ↦
      rw (after_send, e)
        (elim (Option-cases (truthy id)) [
          | inl n ↦ rw n (stop-Confirms tx true no_transaction_id)
          | inr (job, n) ↦ rw n (after_wait-Confirms (with_job tx (some job)) true (wait job))
        ])
]

after_classic-Confirms :
    (i : ℕ) (tx : StagedRotationTx) (answer : ClassicAnswer)
    → ((hash : Text) (status : ℕ → TxStatus)
        → answer ≡ pending hash status
        → truthy (some hash) ≡ some hash)
    → Confirms (after_classic i tx answer)
unfolding after_classic
after_classic-Confirms i tx (threw reached) full = stop-Confirms tx reached send_error
after_classic-Confirms i tx simulation_error full = stop-Confirms tx false simulation_failed
after_classic-Confirms i tx rejected full = stop-Confirms tx false submit_rejected
after_classic-Confirms i tx (pending hash status) full = elim (TxStatus-cases (poll status 0 30)) [
  | inl e ↦ rw (after_classic, e) (finish-Confirms tx true hash (full hash status refl))
  | inr (inl e) ↦ rw (after_classic, e) (stop-Confirms tx true (not_landed i))
  | inr (inr e) ↦ rw (after_classic, e) (stop-Confirms tx true (not_landed i))
]

hand_over-Confirms :
    (network : Network) (i : ℕ) (tx : StagedRotationTx) (signed : SignedRotation)
    → HasHashes network
    → Confirms (hand_over network i tx signed)
unfolding hand_over HasHashes
hand_over-Confirms (relayer answers) i tx signed full =
    elim (Option-cases (truthy tx.relayer_tx_id)) [
      | inl e ↦ rw (hand_over, e) (after_send-Confirms (answers.wait i) tx (answers.send i signed))
      | inr (job, e) ↦ rw (hand_over, e) (after_wait-Confirms tx false (answers.wait i job))
    ]
hand_over-Confirms (classic answers) i tx signed full =
    after_classic-Confirms i tx (answers i signed) (full i signed)

module _ (codec : Codec) (network : Network) (staging : RotationStaging) where
  submit_tx-Confirms :
      HasHashes network
      → (i : ℕ) (tx : StagedRotationTx) → Confirms (submit_tx codec network staging i tx)
  unfolding submit_tx
  submit_tx-Confirms full i tx = elim (Option-cases (truthy tx.submitted_hash)) [
    | inr (h, e) ↦
        rw (submit_tx, e)
          (λ hash returned. λ empty. let clash : some h ≡ none = sym e ∙ empty in cc)
    | inl e ↦
        rw (submit_tx, e)
          (elim (Result-cases (sign_tx codec staging i tx)) [
            | inr (error, n) ↦ rw n (stop-Confirms tx false error)
            | inl (signed, n) ↦ rw n (hand_over-Confirms network i tx signed full)
          ])
  ]

  submit_tx-IsConfirmed :
      (i : ℕ) (tx : StagedRotationTx) (error : SubmitError)
      → (submit_tx codec network staging i tx).outcome ≡ err error
      → ¬ IsConfirmed tx
  unfolding submit_tx
  submit_tx-IsConfirmed i tx error e held = elim (Option-cases (truthy tx.submitted_hash)) [
    | inl n ↦ held n
    | inr (h, n) ↦ let clash : ok h ≡ err error = rw (submit_tx, n) at e in cc
  ]

untouched-InOrder : (txs : List StagedRotationTx) → All IsUntouched txs → InOrder txs
unfolding InOrder
untouched-InOrder [] h = tt
untouched-InOrder (tx ∷ txs) (p, h) = inr h

module _ (run : ℕ → StagedRotationTx → TxRun)
    (confirms : (i : ℕ) (tx : StagedRotationTx) → Confirms (run i tx))
    (keeps : (i : ℕ) (tx : StagedRotationTx) (error : SubmitError)
      → (run i tx).outcome ≡ err error
      → ¬ IsConfirmed tx) where
  run_txs-InOrder :
      (i : ℕ) (txs : List StagedRotationTx) (last : Text)
      → InOrder txs
      → InOrder (run_txs run i txs last).txs
  unfolding InOrder run_txs
  run_txs-InOrder i [] last ordered = tt
  run_txs-InOrder i (tx ∷ txs) last ordered = elim (Result-cases (run i tx).outcome) [
    | inl (hash, e) ↦
        let rest : InOrder txs = elim ordered [
          | inl held ↦ held.1
          | inr fresh ↦ untouched-InOrder txs fresh
        ] in
        rw (run_txs, e) (inl (confirms i tx hash e, run_txs-InOrder (suc i) txs hash rest))
    | inr (error, e) ↦
        rw (run_txs, e)
          (elim ordered [ inl held ↦ absurd (keeps i tx error e held.0) | inr fresh ↦ inr fresh ])
  ]

module _ (codec : Codec) (network : Network) (staging after : RotationStaging) where
  close-InOrder :
      (run : LoopRun)
      → InOrder run.txs
      → (close staging run).stored ≡ some after
      → InOrder after.txs
  close-InOrder run ordered e = elim (Result-cases run.result) [
    | inl (hash, r) ↦ absurd (let clash : none ≡ some after = rw r at e in cc)
    | inr (error, r) ↦
        let kept : record staging { txs = run.txs } ≡ after =
          let e' : some (record staging { txs = run.txs }) ≡ some after = rw r at e in cc in
        subst (λ s. InOrder s.txs) kept ordered
  ]

  -- A staging whose transactions are in order (confirmed ones first, then at most one that may have
  -- been handed over, then untouched ones) is left in order by every run of `submitRotation`, over the
  -- relayer or the classic path and whatever these answer, as long as the hashes of the classic path
  -- are not empty.
  pub submit_rotation-InOrder :
      HasHashes network
      → InOrder staging.txs
      → (submit_rotation codec network (some staging)).stored ≡ some after
      → InOrder after.txs
  unfolding submit_rotation
  submit_rotation-InOrder full ordered e =
      elim (Bool-cases (ltb (length (values staging.collected)) staging.threshold)) [
        | inl few ↦
            let same : staging ≡ after =
              let e' : some staging ≡ some after = rw (submit_rotation, few) at e in cc in
            subst (λ s. InOrder s.txs) same ordered
        | inr enough ↦
            elim (Option-cases (incomplete (length staging.txs) (values staging.collected))) [
              | inr (c, short) ↦
                  let same : staging ≡ after =
                    let e' : some staging ≡ some after = rw (submit_rotation, enough, short) at e in
                    cc in
                  subst (λ s. InOrder s.txs) same ordered
              | inl complete ↦
                  close-InOrder (run_txs (submit_tx codec network staging) 0 staging.txs [])
                    (run_txs-InOrder (submit_tx codec network staging)
                      (submit_tx-Confirms codec network staging full)
                      (submit_tx-IsConfirmed codec network staging) 0 staging.txs [] ordered)
                    (rw (submit_rotation, enough, complete) at e)
            ]
      ]
