-- ===== src/Recovery/Submit/Marks.antt =====
-- What one step of `submitRotation` (packages/frontend/src/lib/recoveryActions.ts) hands over, against
-- the mark that it leaves on its transaction.
use nido.Base.{
  Result-cases, ℕ, zero, suc, ◌+◌, ◌≤◌, List, [], ◌∷◌, ◌++◌, Option, none, some, Bool, true, false,
  ◌≡◌, ◌≢◌, refl, if◌then◌else◌, ◌==◌, inl, inr, Option-cases, arith,
}
use nido.Base.Decimal.{Text}
use nido.Recovery.{StagedRotationTx, RotationStaging, truthy}
use nido.Recovery.Submit.{
  SendAnswer, send_failed, accepted, WaitAnswer, wait_failed, confirmed, relayer, TxRun, submitted,
  with_job, after_wait, after_send, hand_over, submit_tx, sign_tx, Codec, SignedRotation,
  RelayerAnswers, sent_now,
}
use nido.Recovery.Submit.Order.{truthy_again}

-- Whether a transaction has a relayer's job or a hash.
unfoldable pub marked : StagedRotationTx → ℕ
marked tx = elim (truthy tx.relayer_tx_id) [
  | some job ↦ 1
  | none ↦ elim (truthy tx.submitted_hash) [ some hash ↦ 1 | none ↦ 0 ]
]

unfoldable pub marked_at : List StagedRotationTx → ℕ → ℕ
marked_at [] n = 0
marked_at (tx ∷ txs) zero = marked tx
marked_at (tx ∷ txs) (suc n) = marked_at txs n

-- How often an index was handed over.
unfoldable pub sends : ℕ → List ℕ → ℕ
sends n [] = 0
sends n (i ∷ log) = let rest = sends n log in if i == n then suc rest else rest

abbrev pub flag : Bool → ℕ
flag true = 1
flag false = 0

-- A submission does not fail after it was posted, and an accepted transaction comes with a job's id
-- or with a hash.
pub record IsAccountable (answer : SendAnswer) : Type 0 where
  pub not_lost : answer ≢ send_failed true
  pub has_mark :
      (id hash : Option Text) → answer ≡ accepted id hash → truthy hash ≡ none → truthy id ≢ none

abbrev pub Accountable : RelayerAnswers → Type 0
Accountable answers = (i : ℕ) (signed : SignedRotation) → IsAccountable (answers.send i signed)

abbrev pub Counted : StagedRotationTx → TxRun → Type 0
Counted tx run = flag run.sent + marked tx ≤ marked run.after

pub marked_le : (tx : StagedRotationTx) → marked tx ≤ 1
unfolding marked
marked_le tx = ground arith

pub marked-job :
    (tx : StagedRotationTx) (job : Text) → truthy tx.relayer_tx_id ≡ some job → marked tx ≡ 1
unfolding marked
marked-job tx job e = rw (marked, e) refl

pub marked-hash :
    (tx : StagedRotationTx) (hash : Text) → truthy tx.submitted_hash ≡ some hash → marked tx ≡ 1
unfolding marked
marked-hash tx hash e = elim (Option-cases (truthy tx.relayer_tx_id)) [
  | inl n ↦ rw (marked, n, e) refl
  | inr (job, n) ↦ rw (marked, n) refl
]

pub marked-none :
    (tx : StagedRotationTx)
    → truthy tx.relayer_tx_id ≡ none
    → truthy tx.submitted_hash ≡ none
    → marked tx ≡ 0
unfolding marked
marked-none tx n e = rw (marked, n, e) refl

pub sends-append : (n : ℕ) (log log' : List ℕ) → sends n (log ++ log') ≡ sends n log + sends n log'
unfolding sends
sends-append n [] log' = omega arith
sends-append n (i ∷ log) log' = ground (arith, sends-append n log log')

pub sends-now_self : (i : ℕ) (b : Bool) → sends i (sent_now i b) ≡ flag b
unfolding sends
sends-now_self i true = ground arith
sends-now_self i false = refl

pub sends-now_other : (n i : ℕ) (b : Bool) → n ≢ i → sends n (sent_now i b) ≡ 0
unfolding sends
sends-now_other n i true h = ground arith
sends-now_other n i false h = refl

pub finish_marked :
    (tx : StagedRotationTx) (h : Text) → truthy (some h) ≡ some h → marked (submitted tx h) ≡ 1
unfolding submitted
finish_marked tx h e = marked-hash (record tx { submitted_hash = some h }) h e

pub after_wait-Counted :
    (before tx : StagedRotationTx) (sent : Bool) (answer : WaitAnswer)
    → flag sent + marked before ≤ 1
    → marked tx ≡ 1
    → Counted before (after_wait tx sent answer)
unfolding after_wait
after_wait-Counted before tx sent wait_failed le e = omega (arith, le, e)
after_wait-Counted before tx sent (confirmed hash) le e = elim (Option-cases (truthy hash)) [
  | inl n ↦ rw (after_wait, n) (omega (arith, le, e))
  | inr (h, n) ↦ rw (after_wait, n) (omega (arith, le, finish_marked tx h (truthy_again hash h n)))
]

pub marked-with_job :
    (tx : StagedRotationTx) (job : Text)
    → truthy (some job) ≡ some job
    → marked (with_job tx (some job)) ≡ 1
unfolding with_job
marked-with_job tx job e = marked-job (record tx { relayer_tx_id = some job }) job e

pub after_send-Counted :
    (wait : Text → WaitAnswer) (tx : StagedRotationTx) (answer : SendAnswer)
    → IsAccountable answer
    → marked tx ≡ 0
    → Counted tx (after_send wait tx answer)
unfolding after_send
after_send-Counted wait tx (send_failed true) known fresh = absurd (known.not_lost refl)
after_send-Counted wait tx (send_failed false) known fresh = omega arith
after_send-Counted wait tx (accepted id hash) known fresh = elim (Option-cases (truthy hash)) [
  | inr (h, e) ↦
      rw (after_send, e)
        (omega (arith, fresh, finish_marked (with_job tx (truthy id)) h (truthy_again hash h e)))
  | inl e ↦
      rw (after_send, e)
        (elim (Option-cases (truthy id)) [
          | inl n ↦ absurd (known.has_mark id hash refl e n)
          | inr (job, n) ↦ rw n (
              after_wait-Counted tx (with_job tx (some job)) true (wait job) (omega (arith, fresh))
                (marked-with_job tx job (truthy_again id job n)))
        ])
]

module _ (codec : Codec) (answers : RelayerAnswers) (known : Accountable answers)
    (staging : RotationStaging) where
  pub hand_over-Counted :
      (i : ℕ) (tx : StagedRotationTx) (signed : SignedRotation)
      → truthy tx.submitted_hash ≡ none
      → Counted tx (hand_over (relayer answers) i tx signed)
  unfolding hand_over
  hand_over-Counted i tx signed unsent = elim (Option-cases (truthy tx.relayer_tx_id)) [
    | inr (job, e) ↦
        rw (hand_over, e)
          (after_wait-Counted tx tx false (answers.wait i job) (omega (arith, marked_le tx))
            (marked-job tx job e))
    | inl e ↦
        rw (hand_over, e)
          (after_send-Counted (answers.wait i) tx (answers.send i signed) (known i signed)
            (marked-none tx e unsent))
  ]

  pub submit_tx-Counted :
      (i : ℕ) (tx : StagedRotationTx) → Counted tx (submit_tx codec (relayer answers) staging i tx)
  unfolding submit_tx
  submit_tx-Counted i tx = elim (Option-cases (truthy tx.submitted_hash)) [
    | inr (h, e) ↦ rw (submit_tx, e) (omega arith)
    | inl e ↦
        rw (submit_tx, e)
          (elim (Result-cases (sign_tx codec staging i tx)) [
            | inr (error, n) ↦ rw n (omega arith)
            | inl (signed, n) ↦ rw n (hand_over-Counted i tx signed e)
          ])
  ]
