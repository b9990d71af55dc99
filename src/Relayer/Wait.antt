-- ===== src/Relayer/Wait.antt =====
-- relayer.ts: `waitForConfirmation`. A poll is a parameter: what `getRelayerTransaction` returns or
-- throws at each attempt, and what `onPoll` throws when it is told of the response.
pub mod Outcome
use nido.Base.{
  ℕ, zero, suc, ◌+◌, ◌*◌, List, [], ◌∷◌, Option, none, some, Bool, true, false, leb, if◌then◌else◌,
}

pub data RelayerStatus : Type 0 where
  pending sent submitted confirmed failed expired : RelayerStatus

-- The response of the relayer: its status and what else it holds.
pub record RelayerTxResponse (Body : Type 0) : Type 0 where
  pub body : Body
  pub status : Option RelayerStatus

-- What is thrown: a `RelayerError` with the code ONCHAIN_FAILED (which may also be the code that the
-- relayer's answer names), or anything else.
pub data Thrown : Type 0 where
  with_onchain_code otherwise : Thrown

-- One attempt: the poll throws, or it responds and `onPoll` may throw.
pub data Poll (Body : Type 0) : Type 0 where
  throws : Thrown → Poll Body
  responds : RelayerTxResponse Body → (on_poll : Option Thrown) → Poll Body

abbrev pub Last : Type 0 → Type 0
Last Body = Option (RelayerTxResponse Body)

-- `rethrown` is the error that the attempt itself threw.
pub data WaitResult (Body : Type 0) : Type 0 where
  done : RelayerTxResponse Body → WaitResult Body
  onchain_failed : RelayerTxResponse Body → WaitResult Body
  rethrown : WaitResult Body
  lost_contact timed_out : (last : Last Body) → WaitResult Body

pub data Verdict : Type 0 where
  is_confirmed is_dead goes_on : Verdict

abbrev pub verdict : Option RelayerStatus → Verdict
verdict none = goes_on
verdict (some confirmed) = is_confirmed
verdict (some failed) = is_dead
verdict (some expired) = is_dead
verdict (some pending) = goes_on
verdict (some sent) = goes_on
verdict (some submitted) = goes_on

abbrev pub default_max_attempts : ℕ
default_max_attempts = 55

module _ {Body : Type 0} (poll : ℕ → Poll Body) where
  -- The loop with `count` attempts left, from attempt `i` on. A response has set the count of failures
  -- back when `onPoll` throws.
  unfoldable pub wait_from : ℕ → ℕ → Last Body → ℕ → WaitResult Body
  wait_from zero i last poll_failures = timed_out last
  wait_from (suc count) i last poll_failures = elim (poll i) [
    | responds res none ↦ elim (verdict res.status) [
      | is_confirmed ↦ done res
      | is_dead ↦ onchain_failed res
      | goes_on ↦ wait_from count (suc i) (some res) 0
    ]
    | responds res (some with_onchain_code) ↦ rethrown
    | responds res (some otherwise) ↦ wait_from count (suc i) (some res) 1
    | throws with_onchain_code ↦ rethrown
    | throws otherwise ↦
        let rest = wait_from count (suc i) last (suc poll_failures) in
        if leb 5 (suc poll_failures) then lost_contact last else rest
  ]

  unfoldable pub wait_for_confirmation : ℕ → WaitResult Body
  wait_for_confirmation max_attempts = wait_from max_attempts 0 none 0
