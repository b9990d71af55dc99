-- ===== src/Claiming.antt =====
-- packages/frontend/src/lib/claimFlow.ts: which account claims a name. `toUpperCase` is the parameter
-- `upper`, `lastUsed[id] ?? 0` the parameter `last_used`. The URLs are left out: they are built by
-- the browser's URLSearchParams.
pub mod Recent
use nido.Base.{
  ℕ, List, [], ◌∷◌, ◌++◌, Option, none, some, Bool, true, false, ◌&&◌, ◌||◌, not, ◌==◌, leb, ltb,
  if◌then◌else◌, length, take, drop, ◌-◌,
}
use nido.Base.Decimal.{Text, is_digit}

-- `isContractId` of packages/passkey-sdk/src/url.ts.
unfoldable pub is_contract_id : Text → Bool
is_contract_id [] = false
is_contract_id (c ∷ s) = length (c ∷ s) == 56 && (c == b'C' || c == b'c')

abbrev pub is_lower : ℕ → Bool
is_lower c = leb b'a' c && leb c b'z'

abbrev pub all_name : Text → Bool
all_name [] = true
all_name (c ∷ s) = (is_lower c || is_digit c) && all_name s

-- `VALID_NAME_RE`: a lowercase letter, then at most 14 lowercase letters and digits.
unfoldable pub valid_name_re : Text → Bool
valid_name_re [] = false
valid_name_re (c ∷ s) = is_lower c && leb (length s) 14 && all_name s

pub data NameState : Type 0 where
  available taken invalid : NameState

-- A string is falsy when it is empty.
abbrev pub truthy : Option Text → Bool
truthy none = false
truthy (some []) = false
truthy (some (c ∷ s)) = true

unfoldable pub classify_name_state : Text → Option Text → NameState
classify_name_state name resolved =
    if not (valid_name_re name) then invalid else if truthy resolved then taken else available

pub data ClaimerSource : Type 0 where
  param single recent no_claimer : ClaimerSource

pub record ClaimerSelection : Type 0 where
  pub contract_id : Option Text
  pub source : ClaimerSource

unfoldable pub format_claimer_label : Text → Option Text → Text
format_claimer_label contract_id none =
    take 4 contract_id ++ 0x2026 ∷ drop (length contract_id - 4) contract_id
format_claimer_label contract_id (some []) =
    take 4 contract_id ++ 0x2026 ∷ drop (length contract_id - 4) contract_id
format_claimer_label contract_id (some (c ∷ name)) = c ∷ name

module _ (last_used : Text → ℕ) where
  -- The loop over the accounts: the best one so far and its time.
  unfoldable pub best_from : Text → ℕ → List Text → Text
  best_from best best_ts [] = best
  best_from best best_ts (id ∷ ids) =
      let keep = best_from best best_ts ids in
      let change = best_from id (last_used id) ids in
      if ltb best_ts (last_used id) then change else keep

  -- The choice among the known accounts.
  unfoldable pub select_known : List Text → ClaimerSelection
  select_known [] = record { contract_id = none; source = no_claimer }
  select_known (a ∷ []) = record { contract_id = some a; source = single }
  select_known (a ∷ b ∷ accounts) = record {
    contract_id = some (best_from a (last_used a) (a ∷ b ∷ accounts));
    source = recent;
  }

module _ (upper : Text → Text) (last_used : Text → ℕ) where
  unfoldable pub select_claimer : Option Text → List Text → ClaimerSelection
  select_claimer none accounts = select_known last_used accounts
  select_claimer (some param_account) accounts =
      if truthy (some param_account) && is_contract_id (upper param_account)
      then record { contract_id = some (upper param_account); source = param }
      else select_known last_used accounts
