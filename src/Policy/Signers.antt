-- ===== src/Policy/Signers.antt =====
-- packages/frontend/src/lib/policyChainFetch.ts: the state of a rule's policies, what the sign
-- ceremony needs of a rule, and the passkey that a recovery removes. The reads of the policies'
-- contracts, simulated, are parameters that answer `none` where the call throws.
pub mod Removable
pub mod States
use nido.Base.{
  ℕ, zero, suc, ◌-◌, List, [], ◌∷◌, Option, none, some, Bool, Result, ok, err, ◌>>=◌, ltb, leb,
  if◌then◌else◌, length, get_elem?,
}
use nido.Base.Decimal.{Text}
use nido.Base.Int.{ℤ}
use nido.Base.Dict.{Dict, insert, lookup}
use nido.Base.Texts.{same_text, has}
use nido.ZkRecovery.Field.{Bytes}
use nido.Policy.{
  ChainSigner, delegated, external, ChainRule, SpendingLimit, unreadable, limit, PolicyEntry,
  PolicyState,
}
use nido.Policy.Rules.{
  RawContextRule, View, found_rule, not_found, failed_read, ScanError, read_failed, parse_signers,
  parse_rule,
}

abbrev pub no_entry : PolicyEntry
no_entry = record { threshold = none; spending_limit = none }

abbrev pub entry_of_limit : Option (ℤ × ℕ) → PolicyEntry
entry_of_limit none = record { threshold = none; spending_limit = some unreadable }
entry_of_limit (some (stroops, period)) = record {
  threshold = none;
  spending_limit = some (limit stroops period);
}

unfoldable pub is_limit_policy : Option Text → Text → Bool
is_limit_policy limit_policy policy = elim limit_policy [
  | none ↦ Bool.false
  | some address ↦ same_text policy address
]

module _ (limit_policy : Option Text) (read_limit : Text → ℕ → Option (Option (ℤ × ℕ))) where
  -- `limit_policy` is the address that the registry gives.
  unfoldable pub fetch_spending_limit : ChainRule → Option (ℤ × ℕ)
  fetch_spending_limit rule = elim limit_policy [
    | none ↦ none
    | some policy ↦
        if has rule.policies policy
        then elim (read_limit policy rule.rule_id) [
          | none ↦ none
          | some none ↦ none
          | some (some params) ↦ some params
        ]
        else none
  ]

  unfoldable pub limit_entry : ChainRule → PolicyEntry
  limit_entry rule = entry_of_limit (fetch_spending_limit rule)

  module _ (read_threshold : Text → ℕ → Option ℕ) where
    unfoldable pub entry_for : ChainRule → Text → PolicyEntry
    entry_for rule policy =
        if is_limit_policy limit_policy policy
        then limit_entry rule
        else elim (read_threshold policy rule.rule_id) [
          | none ↦ no_entry
          | some m ↦ record { threshold = some m; spending_limit = none }
        ]

    unfoldable pub fill_state : ChainRule → List Text → PolicyState → PolicyState
    fill_state rule [] state = state
    fill_state rule (policy ∷ policies) state =
        fill_state rule policies (insert policy (entry_for rule policy) state)

    unfoldable pub fetch_policy_state : ChainRule → PolicyState
    fetch_policy_state rule = fill_state rule rule.policies []

-- The External signers, as pairs of a verifier and a key.
unfoldable pub external_signers : List ChainSigner → List (Text × Bytes)
external_signers [] = []
external_signers (external verifier public_key ∷ signers) =
    (verifier, public_key) ∷ external_signers signers
external_signers (delegated address ∷ signers) = external_signers signers

unfoldable pub threshold_at : PolicyState → Text → Option ℕ
threshold_at state policy = elim (lookup policy state) [
  | none ↦ none
  | some entry ↦ entry.threshold
]

unfoldable pub first_threshold : PolicyState → List Text → Option ℕ
first_threshold state [] = none
first_threshold state (policy ∷ policies) =
    let rest = first_threshold state policies in
    elim (threshold_at state policy) [ none ↦ rest | some t ↦ if ltb 0 t then some t else rest ]

pub record DefaultRuleAuthInfo : Type 0 where
  pub externals : List (Text × Bytes)
  pub delegated_count : ℕ
  pub policy_count : ℕ
  pub threshold : Option ℕ

unfoldable pub auth_threshold : (state_of : ChainRule → PolicyState) → ChainRule → Option ℕ
auth_threshold state_of rule =
    if ltb 0 (length rule.policies) then first_threshold (state_of rule) rule.policies else none

abbrev pub auth_info_of : (state_of : ChainRule → PolicyState) → ChainRule → DefaultRuleAuthInfo
auth_info_of state_of rule = record {
  externals = external_signers rule.signers;
  delegated_count = length rule.signers - length (external_signers rule.signers);
  policy_count = length rule.policies;
  threshold = auth_threshold state_of rule;
}

-- `view` is what the read of the rule `id` gives, and `state_of` is `fetchPolicyState`.
unfoldable pub fetch_default_rule_auth_info :
    (view : ℕ → View) (state_of : ChainRule → PolicyState) (id : ℕ)
    → Result ScanError DefaultRuleAuthInfo
fetch_default_rule_auth_info view state_of id = elim (view id) [
  | not_found ↦ err (read_failed id)
  | failed_read ↦ err (read_failed id)
  | found_rule native ↦ parse_rule native >>= λ rule. ok (auth_info_of state_of rule)
]

pub data RemovableSigner : Type 0 where
  removable : (signer_id : ℕ) (public_key : Bytes) → RemovableSigner
  no_passkey : RemovableSigner
  several_passkeys : (count : ℕ) → RemovableSigner
  unreadable_signer : RemovableSigner

-- The External signers from position `i` on, each with the id at its position.
unfoldable pub externals_from : List ℕ → ℕ → List ChainSigner → List (Option ℕ × Bytes)
externals_from ids i [] = []
externals_from ids i (external verifier public_key ∷ signers) =
    (get_elem? ids i, public_key) ∷ externals_from ids (suc i) signers
externals_from ids i (delegated address ∷ signers) = externals_from ids (suc i) signers

unfoldable pub select_from : List (Option ℕ × Bytes) → RemovableSigner
select_from [] = no_passkey
select_from ((none, public_key) ∷ []) = unreadable_signer
select_from ((some signer_id, public_key) ∷ []) = removable signer_id public_key
select_from (e ∷ e' ∷ externals) = several_passkeys (length (e ∷ e' ∷ externals))

unfoldable pub select_removable_signer : List ChainSigner → List ℕ → RemovableSigner
select_removable_signer signers signer_ids = select_from (externals_from signer_ids 0 signers)

unfoldable pub find_removable_old_signer : (ℕ → View) → Result ScanError RemovableSigner
find_removable_old_signer view = elim (view 0) [
  | not_found ↦ ok unreadable_signer
  | failed_read ↦ ok unreadable_signer
  | found_rule native ↦ parse_signers native.signers >>= λ signers.
      ok (select_removable_signer signers native.signer_ids)
]
