-- ===== src/Recovery/Rules/Enrich.antt =====
-- A rotation that adds a passkey is planned only with the state of the rule (`enrichRotationRequest` of
-- packages/frontend/src/lib/recoveryActions.ts).
use nido.Base.{
  ℕ, ◌∷◌, [], Elem, ◌≢◌, ◌⊎◌, ◌==◌, ==_iff, not, length, sym, arith, List, some, true, false,
  Result, ok, err, Result-cases, ◌≡◌, refl, inl, inr, Option-cases, Bool-cases, >>=-ok,
}
use mathlib.Core.Path.{subst}
use nido.Base.Decimal.{Text}
use nido.Rotation.{RotationRequest, RotationRuleState, NewPasskeySigner}
use nido.Policy.{ChainRule}
use nido.Recovery.Rules.{
  RecoveryError, rule_missing, enriched, complete_with, read_enrichment, enrich_rotation_request,
  is_enriched, chain_rule_with_id, unread_rule,
}

-- The request is completed with a rule of its id that the chain lists: the numbers of that rule's
-- signers and policies, and the address that the registry gives.
pub record IsCompleted (chain : Result RecoveryError (List ChainRule))
    (policy : Result RecoveryError Text) (request completed : RotationRequest) : Type 0 where
  pub rules : List ChainRule
  pub rule : ChainRule
  pub address : Text
  pub listed : chain ≡ ok rules
  pub found : Elem rule rules
  pub same_id : rule.rule_id ≡ request.default_rule_id
  pub registered : policy ≡ ok address
  pub made : completed ≡ record request {
    rule_state =
        some (record { signer_count = length rule.signers; policy_count = length rule.policies });
    threshold_policy_address = some address;
  }

-- The request had both a state and an address that is not empty.
abbrev pub IsGiven : RotationRequest → Type 0
IsGiven request =
    (state : RotationRuleState) × (address : Text) × (request.rule_state ≡ some state)
    × (request.threshold_policy_address ≡ some address)
    × (length address ≢ 0)

chain_rule_with_id-Elem :
    (id : ℕ) (rules : List ChainRule) (rule : ChainRule)
    → chain_rule_with_id id rules ≡ some rule
    → Elem rule rules × (rule.rule_id ≡ id)
unfolding chain_rule_with_id
chain_rule_with_id-Elem id [] rule e = cc
chain_rule_with_id-Elem id (r ∷ rules) rule e = elim (Bool-cases (r.rule_id == id)) [
  | inl same ↦
      let first : r ≡ rule =
        let e' : some r ≡ some rule = rw (chain_rule_with_id, same) at e in cc in
      (
        inl (sym first),
        subst (λ (c : ChainRule). c.rule_id ≡ id) first ((==_iff r.rule_id id).0 same),
      )
  | inr other ↦
      let (inside, same_id) =
        chain_rule_with_id-Elem id rules rule (rw (chain_rule_with_id, other) at e) in
      (inr inside, same_id)
]

read_enrichment-IsCompleted :
    (chain : Result RecoveryError (List ChainRule)) (policy : Result RecoveryError Text)
    (request completed : RotationRequest)
    → read_enrichment chain policy request ≡ ok completed
    → IsCompleted chain policy request completed
unfolding read_enrichment complete_with
read_enrichment-IsCompleted (err error) policy request completed e = cc
read_enrichment-IsCompleted (ok rules) policy request completed e =
    elim (Option-cases (chain_rule_with_id request.default_rule_id rules)) [
      | inl gone ↦ absurd (
          let clash : err (rule_missing request.default_rule_id) ≡ ok completed =
            rw (read_enrichment, gone) at e in
          cc)
      | inr (rule, found) ↦
          let (address, read, made) =
            >>=-ok policy (λ address. ok (enriched request rule address))
              (rw (read_enrichment, found) at e) in
          let (inside, same_id) =
            chain_rule_with_id-Elem request.default_rule_id rules rule found in
          record {
            rules = rules;
            rule = rule;
            address = address;
            listed = refl;
            found = inside;
            same_id = same_id;
            registered = read;
            made = cc;
          }
    ]

is_enriched-IsGiven : (request : RotationRequest) → is_enriched request ≡ true → IsGiven request
unfolding is_enriched
is_enriched-IsGiven request e = elim (Option-cases request.rule_state) [
  | inl n ↦ absurd (let clash : false ≡ true = rw (is_enriched, n) at e in cc)
  | inr (state, n) ↦ elim (Option-cases request.threshold_policy_address) [
    | inl m ↦ absurd (let clash : false ≡ true = rw (is_enriched, n, m) at e in cc)
    | inr (address, m) ↦
        let full : not (length address == 0) ≡ true = rw (is_enriched, n, m) at e in
        (state, address, n, m, ground arith)
  ]
]

-- A request that adds a passkey leaves `enrichRotationRequest` unchanged when it has the state of a
-- rule and an address of the threshold policy, or completed with a rule of its id that the chain lists,
-- by the numbers of that rule's signers and policies and the address that the registry gives; or not at
-- all.
pub enrich_rotation_request-IsCompleted :
    (chain : Result RecoveryError (List ChainRule)) (policy : Result RecoveryError Text)
    (request completed : RotationRequest) (passkey : NewPasskeySigner)
    → request.add_passkey ≡ some passkey
    → enrich_rotation_request chain policy request ≡ ok completed
    → ((completed ≡ request) × IsGiven request) ⊎ IsCompleted chain policy request completed
unfolding enrich_rotation_request
enrich_rotation_request-IsCompleted chain policy request completed passkey adds e =
    elim (Bool-cases (is_enriched request)) [
      | inl done ↦
          let e' : ok request ≡ ok completed = rw (enrich_rotation_request, done) at e in
          inl (cc, is_enriched-IsGiven request done)
      | inr bare ↦ elim (Result-cases (read_enrichment chain policy request)) [
        | inl (found, r) ↦
            let same : found ≡ completed =
              let e' : ok found ≡ ok completed = rw (enrich_rotation_request, bare, r) at e in cc in
            inr (
              subst (IsCompleted chain policy request) same
                (read_enrichment-IsCompleted chain policy request found r))
        | inr (error, r) ↦ absurd (
            let clash : err (unread_rule error) ≡ ok completed =
              rw (enrich_rotation_request, bare, r, adds) at e in
            cc)
      ]
    ]
