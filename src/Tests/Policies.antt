-- ===== src/Tests/Policies.antt =====
-- Rules of an account: a revoked id, a session key with a limit, a passkey to remove.
use nido.Base.{
  ℕ, zero, suc, List, [], ◌∷◌, Option, none, some, Bool, true, false, Result, ok, err, ◌≡◌, refl,
  ltb, length, take, if◌then◌else◌, get_elem?, Elem, ◌<◌, arith,
}
use nido.Base.Decimal.{Text}
use nido.Base.Dict.{Dict}
use nido.Base.Int.{ℤ}
use nido.Base.Texts.{codes}
use nido.Policy.{
  default_context, call_contract, delegated, external, ChainSigner, ChainRule, PolicyState,
  LocalOverlay, ScopedSessionKeyBlock,
}
use nido.Policy.Rules.{
  RawContextRule, call_contract_tag, external_tag, View, found_rule, not_found, parse_rule,
  parse_context_type, parse_signers, parse_signer, scan_exhausted, fetch_all_chain_rules,
}
use nido.Policy.Rules.Scan.{Reads, gap, live, live_rules, fetch_all_chain_rules-live}
use nido.Policy.Signers.{
  select_removable_signer, externals_from, select_from, removable, fetch_policy_state,
  fetch_spending_limit, fetch_default_rule_auth_info, auth_info_of, auth_threshold, first_threshold,
  threshold_at, fill_state, entry_for, is_limit_policy, DefaultRuleAuthInfo,
}
use nido.Policy.Signers.Removable.{OnlyPasskey, select_removable_signer-only}
use nido.Policy.Blocks.{session_from_chain}
use nido.Policy.Blocks.Visible.{
  IsLimitedKey, Reading, unread, IsKeyBlock, session_from_chain-limited,
}

abbrev raw_key : RawContextRule
raw_key = record {
  id = 2;
  context_type = call_contract_tag (codes "C1");
  name = codes "session";
  signers = external_tag (codes "V1") (7 ∷ []) ∷ [];
  signer_ids = 5 ∷ [];
  policies = codes "P1" ∷ [];
  valid_until = none;
}

abbrev key_rule : ChainRule
key_rule = record {
  rule_id = 2;
  context_type = call_contract (codes "C1");
  name = codes "session";
  signers = external (codes "V1") (7 ∷ []) ∷ [];
  policies = codes "P1" ∷ [];
  valid_until = none;
}

-- Only the rule 2 is live.
abbrev toy_chain : ℕ → Option ChainRule
toy_chain zero = none
toy_chain (suc zero) = none
toy_chain (suc (suc zero)) = some key_rule
toy_chain (suc (suc (suc n))) = none

abbrev toy_view : ℕ → View
toy_view zero = not_found
toy_view (suc zero) = not_found
toy_view (suc (suc zero)) = found_rule raw_key
toy_view (suc (suc (suc n))) = not_found

toy-Reads : (id : ℕ) → Reads toy_chain toy_view id
unfolding parse_rule parse_context_type parse_signers parse_signer
toy-Reads zero = gap refl refl
toy-Reads (suc zero) = gap refl refl
toy-Reads (suc (suc zero)) = live key_rule raw_key refl refl refl
toy-Reads (suc (suc (suc n))) = gap refl refl

fetch_all_chain_rules-live_example :
    (let listed = take 1 (live_rules toy_chain 101 0) in
      fetch_all_chain_rules toy_view 1
      ≡ (if ltb (length listed) 1 then err (scan_exhausted (length listed) 1) else ok listed))
fetch_all_chain_rules-live_example = fetch_all_chain_rules-live toy_chain toy_view toy-Reads 1

abbrev toy_signers : List ChainSigner
toy_signers = delegated (codes "F1") ∷ external (codes "V1") (7 ∷ []) ∷ []

selected : select_removable_signer toy_signers (4 ∷ 5 ∷ []) ≡ removable 5 (7 ∷ [])
unfolding select_removable_signer externals_from select_from
selected = refl

select_removable_signer-only_example :
    (place : ℕ) × (get_elem? {A = ℕ} (4 ∷ 5 ∷ []) place ≡ some 5)
    × OnlyPasskey toy_signers place (7 ∷ [])
select_removable_signer-only_example =
    select_removable_signer-only toy_signers (4 ∷ 5 ∷ []) 5 (7 ∷ []) selected

abbrev toy_limit : Text → ℕ → Option (Option (ℤ × ℕ))
toy_limit policy id = none

abbrev toy_threshold : Text → ℕ → Option ℕ
toy_threshold policy id = some 1

abbrev toy_state : ChainRule → PolicyState
toy_state = fetch_policy_state none toy_limit toy_threshold

-- `parse_rule` of the session key's rule, with the threshold that its policy answers.
abbrev toy_info : DefaultRuleAuthInfo
toy_info = record {
  externals = (codes "V1", 7 ∷ []) ∷ [];
  delegated_count = 0;
  policy_count = 1;
  threshold = some 1;
}

reported : fetch_default_rule_auth_info toy_view toy_state 2 ≡ ok toy_info
unfolding fetch_default_rule_auth_info auth_threshold first_threshold threshold_at
    fetch_policy_state fill_state entry_for is_limit_policy parse_rule parse_context_type
    parse_signers parse_signer nido.Base.Dict.insert nido.Base.Dict.lookup
    nido.Policy.Signers.external_signers
reported = refl

abbrev no_overlay : LocalOverlay
no_overlay = record {
  friend_nicknames = λ address. none;
  session_key_material = λ target. none;
  block_labels = λ id. none;
}

abbrev key_shape : IsLimitedKey key_rule (codes "P1") (codes "C1") (codes "V1") (7 ∷ [])
key_shape = record { context = refl; signers = refl; policies = refl }

-- The registry gives the policy, and its read throws.
unread_limit : Reading (some (codes "P1")) (codes "P1") toy_limit toy_threshold key_rule none
unread_limit = unread refl refl refl

session_from_chain-limited_example :
    (block : ScopedSessionKeyBlock) × (session_from_chain key_rule
        (fetch_policy_state (some (codes "P1")) toy_limit toy_threshold key_rule)
        no_overlay
      ≡ some block)
    × IsKeyBlock
        (some (codes "P1"))
        (codes "P1")
        toy_limit
        toy_threshold
        key_rule
        (codes "C1")
        (7 ∷ [])
        none
        block
session_from_chain-limited_example =
    session_from_chain-limited (some (codes "P1")) (codes "P1") toy_limit toy_threshold key_rule
      no_overlay (codes "C1") (codes "V1") (7 ∷ []) none key_shape unread_limit
