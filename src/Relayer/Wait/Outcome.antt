-- ===== src/Relayer/Wait/Outcome.antt =====
-- relayer.ts: what each end of `waitForConfirmation` says of the polls.
use nido.Base.{ℕ, ◌+◌, ◌≤◌, ◌<◌, ◌≡◌, ◌⊎◌, none, some}
use nido.Relayer.Wait.{
  RelayerTxResponse, with_onchain_code, otherwise, Poll, throws, responds, rethrown, WaitResult,
  done, onchain_failed, lost_contact, timed_out, Verdict, is_confirmed, is_dead, goes_on, verdict,
}

module _ {Body : Type 0} (poll : ℕ → Poll Body) where
  -- An attempt that counts as a failed poll: it throws, or `onPoll` does.
  abbrev pub IsFailed : ℕ → Type 0
  IsFailed i =
      (poll i ≡ throws otherwise)
      ⊎ ((res : RelayerTxResponse Body) × (poll i ≡ responds res (some otherwise)))

  -- An attempt that throws an error with the code ONCHAIN_FAILED.
  abbrev pub IsFatal : ℕ → Type 0
  IsFatal i =
      (poll i ≡ throws with_onchain_code)
      ⊎ ((res : RelayerTxResponse Body) × (poll i ≡ responds res (some with_onchain_code)))

  abbrev pub IsAnswered : ℕ → Verdict → RelayerTxResponse Body → Type 0
  IsAnswered i v res = (poll i ≡ responds res none) × (verdict res.status ≡ v)

  -- An attempt that leaves the transaction open: it failed, or its status is not final.
  abbrev pub IsOpen : ℕ → Type 0
  IsOpen i = IsFailed i ⊎ ((res : RelayerTxResponse Body) × IsAnswered i goes_on res)

  abbrev pub OpenBefore : ℕ → Type 0
  OpenBefore i = (j : ℕ) → j < i → IsOpen j

  -- The last `n` attempts before `i` failed.
  abbrev pub FailedBefore : ℕ → ℕ → Type 0
  FailedBefore n i = (j : ℕ) → i ≤ j + n → j < i → IsFailed j

  -- The response of an attempt below `bound`, the first with a final status, and which one.
  abbrev pub IsFinal : ℕ → Verdict → RelayerTxResponse Body → Type 0
  IsFinal bound v res = (i : ℕ) × (i < bound) × IsAnswered i v res × OpenBefore i

  -- What a result says of the attempts below `bound`.
  abbrev pub IsOutcome : ℕ → WaitResult Body → Type 0
  IsOutcome bound (done res) = IsFinal bound is_confirmed res
  IsOutcome bound (onchain_failed res) = IsFinal bound is_dead res
  IsOutcome bound rethrown = (i : ℕ) × (i < bound) × IsFatal i × OpenBefore i
  IsOutcome bound (timed_out last) = OpenBefore bound
  IsOutcome bound (lost_contact last) =
      (end : ℕ) × (5 ≤ end) × (end ≤ bound) × FailedBefore 5 end × OpenBefore end
