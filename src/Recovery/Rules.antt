-- ===== src/Recovery/Rules.antt =====
-- packages/frontend/src/lib/recoveryActions.ts: the recovery rules of an account, the state of the
-- default rule, the completed request of a rotation, and the checks that a friend makes of a
-- transaction. The rules that the chain tells are an argument, with the error of a failed scan.
pub mod Enrich
use nido.Base.{
  ℕ, zero, suc, ◌+◌, ◌-◌, ◌/◌, List, [], ◌∷◌, ◌++◌, Option, none, some, Bool, true, false, ◌&&◌,
  not, Result, ok, err, ◌>>=◌, ◌==◌, ltb, if◌then◌else◌, length, take, drop,
}
use nido.Base.Decimal.{Text, to_decimal}
use nido.Base.Texts.{same_text, codes}
use nido.Rotation.{RotationRequest}
use nido.Policy.{
  ContextType, default_context, call_contract, create_contract, ChainSigner, delegated, external,
  ChainRule, PolicyState,
}
use nido.Policy.Blocks.{entry_threshold}
use nido.Policy.Rules.{ScanError}

pub data RecoveryError : Type 0 where
  scan_error : ScanError → RecoveryError
  rule_missing : ℕ → RecoveryError
  registry_error : RecoveryError
  unread_rule : RecoveryError → RecoveryError
  not_one_operation : ℕ → RecoveryError
  not_soroban not_a_contract_call other_account no_auth_entry not_account_scoped : RecoveryError
  other_auth_account : RecoveryError
  not_listed no_passkey unsupported_network cancelled fetch_error : RecoveryError
  simulation_error store_error plan_error : RecoveryError

pub record RecoveryRuleInfo : Type 0 where
  pub rule_id : ℕ
  pub threshold : Option ℕ
  pub friends : List Text

unfoldable pub delegated_addresses : List ChainSigner → List Text
delegated_addresses [] = []
delegated_addresses (delegated address ∷ signers) = address ∷ delegated_addresses signers
delegated_addresses (external verifier public_key ∷ signers) = delegated_addresses signers

-- The first policy whose state has a threshold.
unfoldable pub rule_threshold : PolicyState → List Text → Option ℕ
rule_threshold state [] = none
rule_threshold state (policy ∷ policies) =
    let rest = rule_threshold state policies in
    elim (entry_threshold state policy) [ some t ↦ some t | none ↦ rest ]

unfoldable pub calls_self : Text → ContextType → Bool
calls_self account default_context = false
calls_self account (create_contract wasm) = false
calls_self account (call_contract contract) = same_text contract account

module _ (state_of : ChainRule → PolicyState) (account : Text) where
  unfoldable pub recovery_rules : List ChainRule → List RecoveryRuleInfo
  recovery_rules [] = []
  recovery_rules (r ∷ rules) =
      let rest = recovery_rules rules in
      if length r.policies == 0
      then rest
      else if not (calls_self account r.context_type)
      then rest
      else record {
        rule_id = r.rule_id;
        threshold = rule_threshold (state_of r) r.policies;
        friends = delegated_addresses r.signers;
      }
        ∷ rest

  unfoldable pub find_recovery_rules :
      Result RecoveryError (List ChainRule) → Result RecoveryError (List RecoveryRuleInfo)
  find_recovery_rules chain = chain >>= λ rules. ok (recovery_rules rules)

  unfoldable pub rule_with_id : ℕ → List RecoveryRuleInfo → Option RecoveryRuleInfo
  rule_with_id id [] = none
  rule_with_id id (r ∷ rules) =
      let rest = rule_with_id id rules in if r.rule_id == id then some r else rest

  unfoldable pub require_recovery_rule :
      Result RecoveryError (List ChainRule) → ℕ → Result RecoveryError RecoveryRuleInfo
  require_recovery_rule chain id = find_recovery_rules chain >>= λ rules.
      elim (rule_with_id id rules) [ none ↦ err (rule_missing id) | some rule ↦ ok rule ]

-- `Math.max(1, Math.ceil(n / 2))`.
unfoldable pub half_of : ℕ → ℕ
half_of n = if n == 0 then 1 else (n + 1) / 2

unfoldable pub describe_friend_recovery_request : RecoveryRuleInfo → Text → Text
describe_friend_recovery_request rule account =
    codes "Recovery request for "
    ++ (take 8 account
        ++ (codes "…"
            ++ (drop (length account - 4) account
                ++ (codes ": "
                    ++ (to_decimal (elim rule.threshold [
                      | some t ↦ t
                      | none ↦ half_of (length rule.friends)
                    ])
                        ++ (codes " of "
                            ++ (to_decimal (length rule.friends)
                                ++ (codes " friend"
                                    ++ ((if length rule.friends == 1 then [] else codes "s")
                                        ++ codes " required")))))))))

pub record DefaultRuleRepairState : Type 0 where
  pub needs_repair : Bool
  pub signer_count : ℕ
  pub policy_count : ℕ

unfoldable pub chain_rule_with_id : ℕ → List ChainRule → Option ChainRule
chain_rule_with_id id [] = none
chain_rule_with_id id (r ∷ rules) =
    let rest = chain_rule_with_id id rules in if r.rule_id == id then some r else rest

unfoldable pub repair_state : Option ChainRule → DefaultRuleRepairState
repair_state none = record { needs_repair = false; signer_count = 0; policy_count = 0 }
repair_state (some rule) = record {
  needs_repair = ltb 1 (length rule.signers) && length rule.policies == 0;
  signer_count = length rule.signers;
  policy_count = length rule.policies;
}

unfoldable pub check_default_rule_repair :
    Result RecoveryError (List ChainRule) → Result RecoveryError DefaultRuleRepairState
check_default_rule_repair chain = chain >>= λ rules. ok (repair_state (chain_rule_with_id 0 rules))

abbrev pub enriched : RotationRequest → ChainRule → List ℕ → RotationRequest
enriched request rule address = record request {
  rule_state =
      some (record { signer_count = length rule.signers; policy_count = length rule.policies });
  threshold_policy_address = some address;
}

unfoldable pub complete_with :
    Result RecoveryError Text
    → RotationRequest
    → Option ChainRule
    → Result RecoveryError RotationRequest
complete_with policy request none = err (rule_missing request.default_rule_id)
complete_with policy request (some rule) = policy >>= λ address. ok (enriched request rule address)

-- What the `try` block gives.
unfoldable pub read_enrichment :
    Result RecoveryError (List ChainRule)
    → Result RecoveryError Text
    → RotationRequest
    → Result RecoveryError RotationRequest
read_enrichment chain policy request = chain >>= λ rules.
    complete_with policy request (chain_rule_with_id request.default_rule_id rules)

unfoldable pub is_enriched : RotationRequest → Bool
is_enriched request = elim request.rule_state [
  | none ↦ false
  | some state ↦ elim request.threshold_policy_address [
    | none ↦ false
    | some address ↦ not (length address == 0)
  ]
]

-- `policy` is the registry's answer for the threshold policy.
unfoldable pub enrich_rotation_request :
    Result RecoveryError (List ChainRule)
    → Result RecoveryError Text
    → RotationRequest
    → Result RecoveryError RotationRequest
enrich_rotation_request chain policy request =
    if is_enriched request then ok request else elim (read_enrichment chain policy request) [
      | ok completed ↦ ok completed
      | err error ↦ elim request.add_passkey [
        | some passkey ↦ err (unread_rule error)
        | none ↦ ok request
      ]
    ]

pub data Credentials : Type 0 where
  source_account : Credentials
  address_credentials : (address nonce : Text) → Credentials

pub record AuthEntry : Type 0 where
  pub credentials : Credentials
  pub root_invocation : Text

pub data OperationBody : Type 0 where
  other_operation other_host_function : OperationBody
  invoke_contract : (target : Text) → OperationBody

pub record EnvelopeOperation : Type 0 where
  pub body : OperationBody
  pub auth : List AuthEntry

unfoldable pub validate_credentials :
    Text → AuthEntry → Credentials → Result RecoveryError AuthEntry
validate_credentials account entry source_account = err not_account_scoped
validate_credentials account entry (address_credentials address nonce) =
    if same_text address account then ok entry else err other_auth_account

unfoldable pub validate_root_auth : Text → List AuthEntry → Result RecoveryError AuthEntry
validate_root_auth account [] = err no_auth_entry
validate_root_auth account (entry ∷ auth) = validate_credentials account entry entry.credentials

unfoldable pub validate_body :
    Text → List AuthEntry → OperationBody → Result RecoveryError AuthEntry
validate_body account auth other_operation = err not_soroban
validate_body account auth other_host_function = err not_a_contract_call
validate_body account auth (invoke_contract target) =
    if same_text target account then validate_root_auth account auth else err other_account

-- `operations` are those of the envelope that the XDR holds.
unfoldable pub validate_recovery_tx_envelope :
    (operations : List EnvelopeOperation) → (account : Text) → Result RecoveryError AuthEntry
validate_recovery_tx_envelope [] account = err (not_one_operation 0)
validate_recovery_tx_envelope (operation ∷ []) account =
    validate_body account operation.auth operation.body
validate_recovery_tx_envelope (o ∷ o' ∷ operations) account =
    err (not_one_operation (length (o ∷ o' ∷ operations)))
