-- ===== src/Signing/Submit.antt =====
-- packages/frontend/src/lib/signing/submit.ts: the two ways to hand over a transaction. What the
-- relayer and the node answer is a record of parameters; fees and footprints are left out.
use nido.Base.{
  ℕ, List, Option, none, some, Bool, true, false, Result, ok, err, ◌==◌, ltb, if◌then◌else◌, length,
}
use nido.Base.Decimal.{Text}
use nido.Recovery.{truthy}
use nido.Recovery.Submit.{TxStatus, unseen, landed, failed, poll}
use nido.Relayer.Wait.{
  Poll, done, onchain_failed, rethrown, lost_contact, timed_out, default_max_attempts,
  wait_for_confirmation,
}
use nido.Signing.Entry.{AuthEntry, EntryError}

-- A built transaction of one call: the call and the entries of its operation.
pub record Transaction (Call : Type 0) : Type 0 where
  pub call : Call
  pub auth : List AuthEntry

pub data SendAnswer : Type 0 where
  send_error duplicate try_again_later : SendAnswer
  pending : (hash : Text) → SendAnswer

pub data SimAnswer : Type 0 where
  simulation_error : SimAnswer
  simulated : (auth : List AuthEntry) (latest_ledger : ℕ) (retval : Option ℕ) → SimAnswer

pub data SubmitError : Type 0 where
  too_many_entries : ℕ → SubmitError
  relayer_error no_transaction_id wait_failed no_transaction_hash : SubmitError
  simulation_failed submit_rejected not_accepted not_confirmed : SubmitError
  misconfigured no_submitter no_account no_credential no_rule cancelled scan_failed : SubmitError
  entry_error : EntryError → SubmitError

-- `relay` throws with `none`, or gives the id; a response's body is its hash. `assemble` is what
-- `assembleTransaction` leaves as the entries, from those of the simulation.
pub record Network (Call : Type 0) : Type 0 where
  pub relayer_url : Text
  pub relayer_sim_source : Text
  pub submitter : Option Text
  pub account_exists : Text → Bool
  pub simulate : Call → SimAnswer
  pub assemble : Call → List AuthEntry → List AuthEntry
  pub relay : Transaction Call → Option (Option Text)
  pub relayer_poll : Text → ℕ → Poll (Option Text)
  pub enforce : Transaction Call → Bool
  pub send : Transaction Call → SendAnswer
  pub get_transaction : Text → ℕ → TxStatus

module _ {Call : Type 0} (network : Network Call) where
  unfoldable pub relayer_enabled : Bool
  relayer_enabled = ltb 0 (length network.relayer_url)

  unfoldable pub confirmed_hash : Text → Result SubmitError Text
  confirmed_hash id = elim (wait_for_confirmation (network.relayer_poll id) default_max_attempts) [
    | done res ↦ elim (truthy res.body) [ none ↦ err no_transaction_hash | some hash ↦ ok hash ]
    | onchain_failed res ↦ err wait_failed
    | rethrown ↦ err wait_failed
    | lost_contact last ↦ err wait_failed
    | timed_out last ↦ err wait_failed
  ]

  unfoldable pub relayer_submit_and_confirm : Transaction Call → Result SubmitError Text
  relayer_submit_and_confirm tx =
      if ltb 1 (length tx.auth)
      then err (too_many_entries (length tx.auth))
      else elim (network.relay tx) [
        | none ↦ err relayer_error
        | some id ↦ elim (truthy id) [ none ↦ err no_transaction_id | some i ↦ confirmed_hash i ]
      ]

  -- The status after the first read and at most 30 more.
  unfoldable pub poll_status : Text → Result SubmitError Text
  poll_status hash = elim (poll (network.get_transaction hash) 0 30) [
    | landed ↦ ok hash
    | unseen ↦ err not_confirmed
    | failed ↦ err not_confirmed
  ]

  unfoldable pub classic_submit_and_poll : Transaction Call → Result SubmitError Text
  classic_submit_and_poll tx = elim (network.enforce tx) [
    | false ↦ err simulation_failed
    | true ↦ elim (network.send tx) [
      | send_error ↦ err submit_rejected
      | duplicate ↦ err not_accepted
      | try_again_later ↦ err not_accepted
      | pending hash ↦ poll_status hash
    ]
  ]

  -- The source of the simulated transaction: the relayer's account, or the submitter's.
  unfoldable pub source_account : Result SubmitError Text
  source_account =
      if relayer_enabled
      then (if length network.relayer_sim_source == 0
          then err misconfigured
          else existing network.relayer_sim_source)
      else elim network.submitter [ none ↦ err no_submitter | some key ↦ existing key ]
    where
      existing : Text → Result SubmitError Text
      existing key = if network.account_exists key then ok key else err no_account

  -- A built transaction goes to the relayer, or to the node.
  unfoldable pub hand_over : Transaction Call → Result SubmitError Text
  hand_over tx =
      if relayer_enabled then relayer_submit_and_confirm tx else classic_submit_and_poll tx

  -- The simulation of a call whose entries are stripped.
  unfoldable pub simulated_entries : Call → Result SubmitError (List AuthEntry × (ℕ × Option ℕ))
  simulated_entries call = elim (network.simulate call) [
    | simulation_error ↦ err simulation_failed
    | simulated auth latest_ledger retval ↦ ok (auth, (latest_ledger, retval))
  ]
