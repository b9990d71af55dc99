-- ===== src/Policy/Blocks/Visible.antt =====
-- A rule in the shape of a session key is always shown (`fromChain` of
-- packages/passkey-sdk/src/policyBlocks/scopedSessionKey.ts, with the state that
-- packages/frontend/src/lib/policyChainFetch.ts reads), whatever the chain answers of its limit.
use nido.Base.{ℕ, [], ◌∷◌, Option, none, some, true, false, ◌≡◌, refl, sym, ap, ◌∙◌}
use nido.Base.Decimal.{Text}
use nido.Base.Int.{ℤ}
use nido.Base.Dict.{lookup}
use nido.Base.Texts.{same_text_refl, has}
use nido.ZkRecovery.Field.{Bytes}
use nido.Policy.{call_contract, external, ChainRule, PolicyState, LocalOverlay}
use nido.Policy.Signers.{
  fetch_policy_state, fetch_spending_limit, entry_for, entry_of_limit, no_entry, limit_entry,
  is_limit_policy,
}
use nido.Policy.Signers.States.{fetch_policy_state-entries}
use nido.Policy.Blocks.{
  ScopedSessionKeyBlock, session_from_chain, session_claim, session_block, limit_claim, LimitClaim,
  limit_unknown, limited, entry_threshold, entry_limit,
}

-- A rule on one contract with one passkey and the spending-limit policy.
pub record IsLimitedKey (rule : ChainRule) (policy target verifier : Text) (public_key : Bytes)
    : Type 0 where
  pub context : rule.context_type ≡ call_contract target
  pub signers : rule.signers ≡ external verifier public_key ∷ []
  pub policies : rule.policies ≡ policy ∷ []

unfoldable pub claim_of : Option (ℤ × ℕ) → LimitClaim
claim_of none = limit_unknown
claim_of (some (stroops, period)) = limited stroops period

abbrev limit_found : Option (Option (ℤ × ℕ)) → Option (ℤ × ℕ)
limit_found none = none
limit_found (some none) = none
limit_found (some (some params)) = some params

limit_claim-none :
    (state : PolicyState) (policy : Text)
    → lookup policy state ≡ some no_entry
    → limit_claim state (policy ∷ []) ≡ some (claim_of none)
unfolding limit_claim entry_threshold entry_limit claim_of
limit_claim-none state policy e = rw (limit_claim, entry_threshold, e) (rw (entry_limit, e) refl)

limit_claim-entry :
    (state : PolicyState) (policy : Text) (read : Option (ℤ × ℕ))
    → lookup policy state ≡ some (entry_of_limit read)
    → limit_claim state (policy ∷ []) ≡ some (claim_of read)
unfolding limit_claim entry_threshold entry_limit claim_of
limit_claim-entry state policy none e =
    rw (limit_claim, entry_threshold, e) (rw (entry_limit, e) refl)
limit_claim-entry state policy (some (stroops, period)) e =
    rw (limit_claim, entry_threshold, e) (rw (entry_limit, e) refl)

session_claim-one :
    (rule : ChainRule) (state : PolicyState) (overlay : LocalOverlay) (target verifier : Text)
    (public_key : Bytes) (claim : LimitClaim)
    → limit_claim state rule.policies ≡ some claim
    → session_claim rule state overlay (call_contract target) (external verifier public_key ∷ [])
      ≡ some (session_block rule overlay target public_key claim)
unfolding session_claim
session_claim-one rule state overlay target verifier public_key claim e = rw (session_claim, e) refl

module _ (limit_policy : Option Text) (policy : Text)
    (read_limit : Text → ℕ → Option (Option (ℤ × ℕ))) (read_threshold : Text → ℕ → Option ℕ)
    (rule : ChainRule) where
  -- What the chain says of the limit: the registry does not answer and the policy has no threshold to
  -- read; or the registry gives the policy, and its read throws, finds nothing, or finds the limit.
  pub data Reading (answer : Option (ℤ × ℕ)) : Type 0 where
    unregistered :
        limit_policy ≡ none
        → read_threshold policy rule.rule_id ≡ none
        → answer ≡ none
        → Reading answer
    unread :
        limit_policy ≡ some policy
        → read_limit policy rule.rule_id ≡ none
        → answer ≡ none
        → Reading answer
    unset :
        limit_policy ≡ some policy
        → read_limit policy rule.rule_id ≡ some none
        → answer ≡ none
        → Reading answer
    read :
        (params : ℤ × ℕ)
        → limit_policy ≡ some policy
        → read_limit policy rule.rule_id ≡ some (some params)
        → answer ≡ some params
        → Reading answer

  -- What the block shows of an answer.
  abbrev pub Shows : Option (ℤ × ℕ) → ScopedSessionKeyBlock → Type 0
  Shows none block = (block.limit_stroops ≡ none) × (block.limit_unreadable ≡ true)
  Shows (some params) block = (block.limit_stroops ≡ some params) × (block.limit_unreadable ≡ false)

  -- The block of this key: its rule, its contract, its key and its limit.
  pub record IsKeyBlock (target : Text) (public_key : Bytes) (answer : Option (ℤ × ℕ))
      (block : ScopedSessionKeyBlock) : Type 0 where
    pub id : block.rule_id ≡ some rule.rule_id
    pub contract : block.target_contract ≡ target
    pub key : block.session_pubkey ≡ public_key
    pub shown : Shows answer block

  session_block-IsKeyBlock :
      (overlay : LocalOverlay) (target : Text) (public_key : Bytes) (answer : Option (ℤ × ℕ))
      → IsKeyBlock target public_key answer
          (session_block rule overlay target public_key (claim_of answer))
  unfolding claim_of
  session_block-IsKeyBlock overlay target public_key none = record {
    id = refl;
    contract = refl;
    key = refl;
    shown = (refl, refl);
  }
  session_block-IsKeyBlock overlay target public_key (some (stroops, period)) = record {
    id = refl;
    contract = refl;
    key = refl;
    shown = (refl, refl);
  }

  fetched_entry :
      rule.policies ≡ policy ∷ []
      → lookup policy (fetch_policy_state limit_policy read_limit read_threshold rule)
        ≡ some (entry_for limit_policy read_limit read_threshold rule policy)
  fetched_entry one =
      let entry = fetch_policy_state-entries limit_policy read_limit read_threshold rule policy in
      let member : has rule.policies policy ≡ true = rw (one, same_text_refl policy) refl in
      rw member at entry

  -- The entry of a limit policy that the registry gives.
  registered_entry :
      (found : Option (Option (ℤ × ℕ))) (answer : Option (ℤ × ℕ))
      → rule.policies ≡ policy ∷ []
      → limit_policy ≡ some policy
      → read_limit policy rule.rule_id ≡ found
      → limit_found found ≡ answer
      → entry_for limit_policy read_limit read_threshold rule policy ≡ entry_of_limit answer
  unfolding entry_for is_limit_policy limit_entry fetch_spending_limit
  registered_entry none answer one there e same =
      rw
        (
          entry_for,
          is_limit_policy,
          there,
          same_text_refl policy,
          limit_entry,
          fetch_spending_limit,
          one,
          same_text_refl policy,
          e,
          ← same,
        )
        refl
  registered_entry (some none) answer one there e same =
      rw
        (
          entry_for,
          is_limit_policy,
          there,
          same_text_refl policy,
          limit_entry,
          fetch_spending_limit,
          one,
          same_text_refl policy,
          e,
          ← same,
        )
        refl
  registered_entry (some (some params)) answer one there e same =
      rw
        (
          entry_for,
          is_limit_policy,
          there,
          same_text_refl policy,
          limit_entry,
          fetch_spending_limit,
          one,
          same_text_refl policy,
          e,
          ← same,
        )
        refl

  -- The entry of a policy that answers no threshold, while the registry gives none.
  unregistered_entry :
      limit_policy ≡ none
      → read_threshold policy rule.rule_id ≡ none
      → entry_for limit_policy read_limit read_threshold rule policy ≡ no_entry
  unfolding entry_for is_limit_policy
  unregistered_entry gone silent = rw (entry_for, is_limit_policy, gone, silent) refl

  limit_claim-Reading :
      (answer : Option (ℤ × ℕ))
      → rule.policies ≡ policy ∷ []
      → Reading answer
      → limit_claim (fetch_policy_state limit_policy read_limit read_threshold rule) (policy ∷ [])
        ≡ some (claim_of answer)
  limit_claim-Reading answer one (unregistered gone silent same) = rw same (
      limit_claim-none (fetch_policy_state limit_policy read_limit read_threshold rule) policy
        (fetched_entry one ∙ ap some (unregistered_entry gone silent)))
  limit_claim-Reading answer one (unread there e same) =
      limit_claim-entry (fetch_policy_state limit_policy read_limit read_threshold rule) policy
        answer (fetched_entry one ∙ ap some (registered_entry none answer one there e (sym same)))
  limit_claim-Reading answer one (unset there e same) =
      limit_claim-entry (fetch_policy_state limit_policy read_limit read_threshold rule) policy
        answer
        (fetched_entry one ∙ ap some (registered_entry (some none) answer one there e (sym same)))
  limit_claim-Reading answer one (read params there e same) =
      limit_claim-entry (fetch_policy_state limit_policy read_limit read_threshold rule) policy
        answer
        (fetched_entry one
          ∙ ap some (registered_entry (some (some params)) answer one there e (sym same)))

  -- A rule on one contract with one passkey and one policy, the spending limit, is loaded as a session
  -- key of that rule, contract and key, whatever the chain answers of the limit: with the limit that
  -- the policy gives, and marked unreadable, without one, when the registry or the read fails or the
  -- policy has none for the rule. When the registry fails, the policy has to answer no threshold.
  pub session_from_chain-limited :
      (overlay : LocalOverlay) (target verifier : Text) (public_key : Bytes)
      (answer : Option (ℤ × ℕ))
      → IsLimitedKey rule policy target verifier public_key
      → Reading answer
      → (block : ScopedSessionKeyBlock) × (session_from_chain rule
            (fetch_policy_state limit_policy read_limit read_threshold rule)
            overlay
          ≡ some block)
        × IsKeyBlock target public_key answer block
  unfolding session_from_chain
  session_from_chain-limited overlay target verifier public_key answer key reading =
      let state = fetch_policy_state limit_policy read_limit read_threshold rule in
      let claimed =
        ap (limit_claim state) key.policies ∙ limit_claim-Reading answer key.policies reading in
      (
        session_block rule overlay target public_key (claim_of answer),
        ap (λ context. session_claim rule state overlay context rule.signers) key.context
            ∙ ap (session_claim rule state overlay (call_contract target)) key.signers
            ∙ session_claim-one rule state overlay target verifier public_key (claim_of answer)
                claimed,
        session_block-IsKeyBlock overlay target public_key answer,
      )
