-- ===== src/Policy/Signers/States.antt =====
-- The state of a rule's policies (`fetchPolicyState`) and the threshold that the sign ceremony uses
-- (`fetchDefaultRuleAuthInfo`) of packages/frontend/src/lib/policyChainFetch.ts.
use nido.Base.{
  ℕ, ◌<◌, List, [], ◌∷◌, Option, none, some, ok, err, >>=-ok, length, ◌≡◌, refl, ap, ◌∙◌,
  if◌then◌else◌, ltb, Elem, arith, inl, inr, Bool-cases, Option-cases,
}
use nido.Base.Decimal.{Text}
use nido.Base.Int.{ℤ}
use nido.Base.Dict.{insert, lookup, lookup-insert}
use nido.Base.Texts.{same_text-cases, same_text_refl, has, Elem-has}
use nido.Policy.{ChainRule, PolicyState}
use nido.Policy.Rules.{View-cases, RawContextRule, View, found_rule, parse_rule, read_failed}
use nido.Policy.Signers.{
  auth_info_of, auth_threshold, limit_entry, is_limit_policy, DefaultRuleAuthInfo,
  fetch_default_rule_auth_info, fetch_spending_limit, fetch_policy_state, fill_state, entry_for,
  first_threshold, threshold_at,
}

module _ (limit_policy : Option Text) (read_limit : Text → ℕ → Option (Option (ℤ × ℕ)))
    (read_threshold : Text → ℕ → Option ℕ) (rule : ChainRule) where
  lookup-fill_state :
      (policies : List Text) (state : PolicyState) (policy : Text)
      → lookup policy (fill_state limit_policy read_limit read_threshold rule policies state) ≡ (
          if has policies policy
          then some (entry_for limit_policy read_limit read_threshold rule policy)
          else lookup policy state)
  unfolding fill_state
  lookup-fill_state [] state policy = refl
  lookup-fill_state (p ∷ policies) state policy =
      rw
        (
          lookup-fill_state policies
              (insert p (entry_for limit_policy read_limit read_threshold rule p) state) policy,
          lookup-insert p policy (entry_for limit_policy read_limit read_threshold rule p) state,
        )
        (elim (same_text-cases p policy) [
          | inl (same, e) ↦
              rw (e, same_text_refl policy)
                (elim (Bool-cases (has policies policy)) [ inl h ↦ rw h refl | inr h ↦ rw h refl ])
          | inr (other, n) ↦ rw other refl
        ])

  -- The state that `fetchPolicyState` returns has, for each policy of the rule, the entry of that
  -- policy's own contract, whatever the other policies answer, and nothing for any other address.
  pub fetch_policy_state-entries :
      (policy : Text)
      → lookup policy (fetch_policy_state limit_policy read_limit read_threshold rule) ≡ (
          if has rule.policies policy
          then some (entry_for limit_policy read_limit read_threshold rule policy)
          else none)
  unfolding fetch_policy_state lookup
  fetch_policy_state-entries policy = lookup-fill_state rule.policies [] policy

first_threshold-some :
    (state : PolicyState) (policies : List Text) (t : ℕ)
    → first_threshold state policies ≡ some t
    → (policy : Text) × (0 < t) × Elem policy policies × (threshold_at state policy ≡ some t)
unfolding first_threshold
first_threshold-some state [] t h = cc
first_threshold-some state (p ∷ policies) t h =
    let later : first_threshold state policies ≡ some t
        → (policy : Text) × (0 < t)
          × Elem policy (p ∷ policies)
          × (threshold_at state policy ≡ some t) =
      λ e.
        let (policy, above, m, at) = first_threshold-some state policies t e in
        (policy, above, inr m, at) in
    elim (Option-cases (threshold_at state p)) [
      | inl e ↦ later (rw (first_threshold, e) at h)
      | inr (m, e) ↦ elim (Bool-cases (ltb 0 m)) [
        | inr low ↦ later (rw (first_threshold, e, low) at h)
        | inl high ↦
            let same : m ≡ t =
              let h' : some m ≡ some t = rw (first_threshold, e, high) at h in cc in
            let above : 0 < t = ground arith in (p, above, inl refl, (e ∙ ap some same))
      ]
    ]

module _ (limit_policy : Option Text) (read_limit : Text → ℕ → Option (Option (ℤ × ℕ)))
    (read_threshold : Text → ℕ → Option ℕ) where
  threshold-entry_for :
      (rule : ChainRule) (policy : Text) (t : ℕ)
      → (entry_for limit_policy read_limit read_threshold rule policy).threshold ≡ some t
      → read_threshold policy rule.rule_id ≡ some t
  unfolding entry_for limit_entry
  threshold-entry_for rule policy t h = elim (Bool-cases (is_limit_policy limit_policy policy)) [
    | inl limited ↦ elim (Option-cases (fetch_spending_limit limit_policy read_limit rule)) [
      | inl e ↦ absurd (let h' : none ≡ some t = rw (limited, limit_entry, e) at h in cc)
      | inr (params, e) ↦ absurd (let h' : none ≡ some t = rw (limited, limit_entry, e) at h in cc)
    ]
    | inr plain ↦ elim (Option-cases (read_threshold policy rule.rule_id)) [
      | inl e ↦ absurd (let h' : none ≡ some t = rw (plain, e) at h in cc)
      | inr (m, e) ↦ e ∙ (rw (plain, e) at h)
    ]
  ]

  auth_threshold-some :
      (rule : ChainRule) (t : ℕ)
      → auth_threshold (fetch_policy_state limit_policy read_limit read_threshold) rule ≡ some t
      → (policy : Text) × (0 < t)
        × Elem policy rule.policies
        × (read_threshold policy rule.rule_id ≡ some t)
  unfolding auth_threshold threshold_at
  auth_threshold-some rule t held = elim (Bool-cases (ltb 0 (length rule.policies))) [
    | inr bare ↦ absurd (let h : none ≡ some t = rw (auth_threshold, bare) at held in cc)
    | inl some_policy ↦
        let state = fetch_policy_state limit_policy read_limit read_threshold rule in
        let (policy, above, member, at) =
          first_threshold-some state rule.policies t (rw (auth_threshold, some_policy) at held) in
        let entry : lookup policy state
            ≡ some (entry_for limit_policy read_limit read_threshold rule policy) =
          let fetched =
            fetch_policy_state-entries limit_policy read_limit read_threshold rule policy in
          rw (Elem-has rule.policies policy member) at fetched in
        let answer = rw (threshold_at, entry) at at in
        (policy, above, member, threshold-entry_for rule policy t answer)
  ]

  -- When `fetchDefaultRuleAuthInfo` reports a threshold, the rule was read and parsed, the threshold
  -- is above zero, and one of the rule's own policies answers it for that rule.
  pub fetch_default_rule_auth_info-threshold :
      (view : ℕ → View) (id : ℕ) (info : DefaultRuleAuthInfo) (t : ℕ)
      → fetch_default_rule_auth_info view
          (fetch_policy_state limit_policy read_limit read_threshold)
          id
        ≡ ok info
      → info.threshold ≡ some t
      → (native : RawContextRule) × (rule : ChainRule) × (policy : Text) × (view id
          ≡ found_rule native)
        × (parse_rule native ≡ ok rule)
        × (0 < t)
        × Elem policy rule.policies
        × (read_threshold policy rule.rule_id ≡ some t)
  unfolding fetch_default_rule_auth_info
  fetch_default_rule_auth_info-threshold view id info t h reported = elim (View-cases (view id)) [
    | inr (inl v) ↦
        absurd (
          let h' : err (read_failed id) ≡ ok info = rw (fetch_default_rule_auth_info, v) at h in cc)
    | inr (inr v) ↦
        absurd (
          let h' : err (read_failed id) ≡ ok info = rw (fetch_default_rule_auth_info, v) at h in cc)
    | inl (native, v) ↦
        let state_of = fetch_policy_state limit_policy read_limit read_threshold in
        let (rule, parsed, returned) =
          >>=-ok (parse_rule native) (λ rule. ok (auth_info_of state_of rule))
            (rw (fetch_default_rule_auth_info, v) at h) in
        let same : auth_info_of state_of rule ≡ info = cc in
        let held : auth_threshold state_of rule ≡ some t =
          ap {B = Option ℕ} (λ i. i.threshold) same ∙ reported in
        let (policy, above, member, answer) = auth_threshold-some rule t held in
        (native, rule, policy, v, parsed, above, member, answer)
  ]
