-- ===== src/Recovery/Submit/Once.antt =====
-- No transaction of a recovery reaches the relayer twice (`submitRotation` of
-- packages/frontend/src/lib/recoveryActions.ts), however often the submission is run again.
use nido.Base.{
  Result-cases, ℕ, zero, suc, ◌+◌, ◌≤◌, ◌<◌, List, [], ◌∷◌, ◌++◌, Option, none, some, Result, ok,
  err, ◌≡◌, refl, ◌==◌, not, inl, inr, Option-cases, Bool-cases, arith, ltb, length,
}
use nido.Base.Decimal.{Text}
use nido.Base.Dict.{values}
use nido.Base.Texts.{has}
use nido.Recovery.{FriendSignature, StagedRotationTx, RotationStaging}
use nido.Recovery.Collect.{add_friend_signature, add_signature, CollectError}
use nido.Recovery.Submit.{
  Codec, relayer, TxRun, LoopRun, submit_tx, run_txs, submit_rotation, incomplete, close,
  RelayerAnswers, sent_now,
}
use nido.Recovery.Submit.Marks.{
  marked_at, sends, Accountable, Counted, marked_le, sends-append, sends-now_self, sends-now_other,
  submit_tx-Counted,
}

module _ (run : ℕ → StagedRotationTx → TxRun)
    (counted : (i : ℕ) (tx : StagedRotationTx) → Counted tx (run i tx)) where
  sends_before :
      (i : ℕ) (txs : List StagedRotationTx) (last : Text) (n : ℕ)
      → n < i
      → sends n (run_txs run i txs last).sent ≡ 0
  unfolding run_txs sends
  sends_before i [] last n below = refl
  sends_before i (tx ∷ txs) last n below = elim (Result-cases (run i tx).outcome) [
    | inr (error, e) ↦ rw (run_txs, e) (sends-now_other n i (run i tx).sent (omega arith))
    | inl (hash, e) ↦
        rw (run_txs, e)
          (omega (
            arith,
            sends-append n (sent_now i (run i tx).sent) (run_txs run (suc i) txs hash).sent,
            sends-now_other n i (run i tx).sent (omega arith),
            sends_before (suc i) txs hash n (omega arith),
          ))
  ]

  run_txs_counted :
      (i : ℕ) (txs : List StagedRotationTx) (last : Text) (n : ℕ)
      → sends (i + n) (run_txs run i txs last).sent + marked_at txs n
        ≤ marked_at (run_txs run i txs last).txs n
  unfolding run_txs sends marked_at
  run_txs_counted i [] last n = omega arith
  run_txs_counted i (tx ∷ txs) last zero =
      let here : i + 0 ≡ i = omega arith in
      elim (Result-cases (run i tx).outcome) [
        | inr (error, e) ↦
            rw (run_txs, e, here) (omega (arith, sends-now_self i (run i tx).sent, counted i tx))
        | inl (hash, e) ↦
            rw (run_txs, e, here)
              (omega (
                arith,
                sends-now_self i (run i tx).sent,
                counted i tx,
                sends-append i (sent_now i (run i tx).sent) (run_txs run (suc i) txs hash).sent,
                sends_before (suc i) txs hash i (omega arith),
              ))
      ]
  run_txs_counted i (tx ∷ txs) last (suc n) =
      let moved : i + suc n ≡ suc i + n = omega arith in
      elim (Result-cases (run i tx).outcome) [
        | inr (error, e) ↦
            rw (run_txs, e, marked_at)
              (omega (arith, sends-now_other (i + suc n) i (run i tx).sent (omega arith)))
        | inl (hash, e) ↦
            rw (run_txs, e, marked_at, moved)
              (omega (
                arith,
                sends-now_other (suc i + n) i (run i tx).sent (omega arith),
                sends-append (suc i + n) (sent_now i (run i tx).sent)
                    (run_txs run (suc i) txs hash).sent,
                run_txs_counted (suc i) txs hash n,
              ))
      ]

marked_at_le : (txs : List StagedRotationTx) (n : ℕ) → marked_at txs n ≤ 1
unfolding marked_at
marked_at_le [] n = omega arith
marked_at_le (tx ∷ txs) zero = marked_le tx
marked_at_le (tx ∷ txs) (suc n) = marked_at_le txs n

-- How often an index may have been handed over: not at all while its transaction is unmarked.
unfoldable pub allowance : Option RotationStaging → ℕ → ℕ
allowance none n = 1
allowance (some staging) n = marked_at staging.txs n

allowance_le : (stored : Option RotationStaging) (n : ℕ) → allowance stored n ≤ 1
unfolding allowance
allowance_le none n = omega arith
allowance_le (some staging) n = marked_at_le staging.txs n

module _ (codec : Codec) (answers : RelayerAnswers) (known : Accountable answers) where
  close_counted :
      (staging : RotationStaging) (run : LoopRun) (n : ℕ)
      → sends n run.sent + marked_at staging.txs n ≤ marked_at run.txs n
      → sends n (close staging run).sent + marked_at staging.txs n
        ≤ allowance (close staging run).stored n
  unfolding allowance
  close_counted staging run n h = elim (Result-cases run.result) [
    | inl (hash, r) ↦ rw r (omega (arith, h, marked_at_le run.txs n))
    | inr (error, r) ↦ rw r h
  ]

  submit_counted :
      (stored : Option RotationStaging) (n : ℕ)
      → sends n (submit_rotation codec (relayer answers) stored).sent + allowance stored n
        ≤ allowance (submit_rotation codec (relayer answers) stored).stored n
  unfolding submit_rotation allowance sends
  submit_counted none n = omega arith
  submit_counted (some staging) n =
      elim (Bool-cases (ltb (length (values staging.collected)) staging.threshold)) [
        | inl few ↦ rw (submit_rotation, few) (omega arith)
        | inr enough ↦
            elim (Option-cases (incomplete (length staging.txs) (values staging.collected))) [
              | inr (c, short) ↦ rw (submit_rotation, enough, short) (omega arith)
              | inl complete ↦
                  let run = submit_tx codec (relayer answers) staging in
                  let start : 0 + n ≡ n = omega arith in
                  let counted =
                    run_txs_counted run (submit_tx-Counted codec answers known staging) 0
                      staging.txs [] n in
                  rw (submit_rotation, enough, complete)
                    (close_counted staging (run_txs run 0 staging.txs []) n (rw start at counted))
            ]
      ]

-- What happens to a staged recovery: a reply arrives, or its submission is run.
pub data Event : Type 0 where
  reply_arrives : (blob : Text) → Event
  submission_runs : (answers : RelayerAnswers) → Accountable answers → Event

-- The staging that is stored, and every index that was handed over so far.
pub record Session : Type 0 where
  pub stored : Option RotationStaging
  pub log : List ℕ

-- What is stored after a call that saves the staging that it returns.
abbrev pub saved :
    Option RotationStaging → Result CollectError RotationStaging → Option RotationStaging
saved stored (ok staging) = some staging
saved stored (err error) = stored

module _ (codec : Codec) (decode : Text → Option FriendSignature) where
  unfoldable pub after_event : Session → Event → Session
  after_event session (reply_arrives blob) = record {
    stored = saved session.stored (add_friend_signature decode session.stored blob);
    log = session.log;
  }
  after_event session (submission_runs answers known) = record {
    stored = (submit_rotation codec (relayer answers) session.stored).stored;
    log = session.log ++ (submit_rotation codec (relayer answers) session.stored).sent;
  }

  unfoldable pub after_events : Session → List Event → Session
  after_events session [] = session
  after_events session (event ∷ events) = after_events (after_event session event) events

  allowance-add_signature :
      (staging : RotationStaging) (fs : FriendSignature) (n : ℕ)
      → allowance (saved (some staging) (add_signature decode staging fs)) n
        ≡ marked_at staging.txs n
  unfolding allowance add_signature
  allowance-add_signature staging fs n =
      elim (Bool-cases (not (has staging.friends fs.friend_account))) [
        | inl stranger ↦ rw (add_signature, stranger) refl
        | inr listed ↦ elim (Bool-cases (not (length fs.entries == length staging.txs))) [
          | inl short ↦ rw (add_signature, listed, short) refl
          | inr whole ↦ rw (add_signature, listed, whole) refl
        ]
      ]

  allowance-reply :
      (stored : Option RotationStaging) (blob : Text) (n : ℕ)
      → allowance (saved stored (add_friend_signature decode stored blob)) n ≡ allowance stored n
  unfolding allowance add_friend_signature
  allowance-reply none blob n = refl
  allowance-reply (some staging) blob n = elim (Option-cases (decode blob)) [
    | inl e ↦ rw (add_friend_signature, e) refl
    | inr (fs, e) ↦ rw (add_friend_signature, e) (allowance-add_signature staging fs n)
  ]

  event_bounded :
      (event : Event) (session : Session) (n : ℕ)
      → sends n session.log ≤ allowance session.stored n
      → sends n (after_event session event).log ≤ allowance (after_event session event).stored n
  unfolding after_event
  event_bounded (reply_arrives blob) session n h =
      omega (arith, h, allowance-reply session.stored blob n)
  event_bounded (submission_runs answers known) session n h =
      let run = submit_rotation codec (relayer answers) session.stored in
      omega (
        arith,
        h,
        sends-append n session.log run.sent,
        submit_counted codec answers known session.stored n,
      )

  events_bounded :
      (events : List Event) (session : Session) (n : ℕ)
      → sends n session.log ≤ allowance session.stored n
      → sends n (after_events session events).log ≤ 1
  unfolding after_events
  events_bounded [] session n h = omega (arith, h, allowance_le session.stored n)
  events_bounded (event ∷ events) session n h =
      events_bounded events (after_event session event) n (event_bounded event session n h)

  -- Over any sequence of replies and of submissions, no transaction of the stored recovery is handed
  -- to the relayer more than once. Whatever the Stellar SDK cannot read, the relayers' answers are
  -- arbitrary but for two: an acceptance that comes with neither a job's id nor a hash, and a
  -- submission that throws after it was posted.
  pub after_events_once :
      (stored : Option RotationStaging) (events : List Event) (n : ℕ)
      → sends n (after_events (record { stored = stored; log = [] }) events).log ≤ 1
  unfolding sends
  after_events_once stored events n =
      events_bounded events (record { stored = stored; log = [] }) n (omega arith)
