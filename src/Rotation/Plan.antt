-- ===== src/Rotation/Plan.antt =====
-- What a plan does to the rule.
use nido.Base.{
  ℕ, ◌+◌, ◌≤◌, ◌<◌, ◌≡◌, ◌≢◌, ◌⊎◌, ◌↔◌, List, ◌∷◌, Option, none, some, false, ok, All, length,
  arith,
}
use nido.Rotation.{
  add_signer, remove_signer, add_policy, Address, NewPasskeySigner, RotationRuleState,
  RotationRequest, RotationCall, count_of, plan_rotation,
}
use nido.Rotation.States.{states, final, is_n_of_n}

module _ (rule : ℕ) (add : Option NewPasskeySigner) (remove : Option ℕ) (state : RotationRuleState)
    (c : ℕ) (address : Address) where
  abbrev pub request : RotationRequest
  request = record {
    default_rule_id = rule;
    add_passkey = add;
    remove_signer_id = remove;
    rule_state = some state;
    threshold_policy_address = some (c ∷ address);
  }

-- A call that the request asks for, or the policy of one signature that goes before it.
abbrev pub IsAsked : RotationRequest → RotationCall → Type 0
IsAsked req (add_signer rule verifier key) =
    (rule ≡ req.default_rule_id)
    × (length key ≡ 65)
    × (req.add_passkey ≡ some (record { verifier_address = verifier; public_key = key }))
IsAsked req (remove_signer rule signer) =
    (rule ≡ req.default_rule_id) × (req.remove_signer_id ≡ some signer)
IsAsked req (add_policy rule address threshold) =
    (rule ≡ req.default_rule_id) × (threshold ≡ 1) × (req.threshold_policy_address ≡ some address)

-- A rotation planned with the rule's state and a policy's address does not leave a rule on which
-- every one of several signers must sign.
pub final-is_n_of_n :
    (rule : ℕ) (add : Option NewPasskeySigner) (remove : Option ℕ) (state : RotationRuleState)
    (c : ℕ) (address : Address) (calls : List RotationCall)
    → plan_rotation (request rule add remove state c address) ≡ ok calls
    → is_n_of_n (final calls state) ≡ false
unfolding plan_rotation
final-is_n_of_n rule none none state c address calls h = ground arith
final-is_n_of_n rule none (some r) state c address calls h = ground arith
final-is_n_of_n rule (some p) none state c address calls h = ground arith
final-is_n_of_n rule (some p) (some r) state c address calls h = ground arith

-- For a request that gives the state of its rule and the address of the threshold policy, and that
-- adds or removes one key at most: from a rule that is not one on which every one of several signers
-- must sign, the plan passes through no such rule.
pub states-is_n_of_n :
    (rule : ℕ) (add : Option NewPasskeySigner) (remove : Option ℕ) (state : RotationRuleState)
    (c : ℕ) (address : Address) (calls : List RotationCall)
    → count_of add + count_of remove ≤ 1
    → is_n_of_n state ≡ false
    → plan_rotation (request rule add remove state c address) ≡ ok calls
    → All (λ s. is_n_of_n s ≡ false) (states calls state)
unfolding plan_rotation
states-is_n_of_n rule none none state c address calls one start h = ground arith
states-is_n_of_n rule none (some r) state c address calls one start h = ground arith
states-is_n_of_n rule (some p) none state c address calls one start h = ground arith
states-is_n_of_n rule (some p) (some r) state c address calls one start h = absurd (omega arith)

-- When a key is added and another removed, by a request that gives the state of its rule and the
-- address of the threshold policy, from a rule that is not one on which every one of several signers
-- must sign, the plan passes through no such rule exactly when the rule did not
-- start with one signer and no policy.
pub replace-is_n_of_n_iff :
    (rule : ℕ) (passkey : NewPasskeySigner) (old : ℕ) (state : RotationRuleState) (c : ℕ)
    (address : Address) (calls : List RotationCall)
    → is_n_of_n state ≡ false
    → plan_rotation (request rule (some passkey) (some old) state c address) ≡ ok calls
    → All (λ s. is_n_of_n s ≡ false) (states calls state)
      ↔ ((state.signer_count ≢ 1) ⊎ (state.policy_count ≢ 0))
unfolding plan_rotation
replace-is_n_of_n_iff rule passkey old state c address calls start h = ground arith

-- No call leaves the rule without a signer, for a rule that has one, if a signer is added or one
-- more is there.
pub states-signer_count :
    (req : RotationRequest) (state : RotationRuleState) (calls : List RotationCall)
    → 1 ≤ state.signer_count
    → 2 ≤ state.signer_count + count_of req.add_passkey
    → plan_rotation req ≡ ok calls
    → All (λ s. 0 < s.signer_count) (states calls state)
unfolding plan_rotation
states-signer_count req state calls some_signer spare h = ground arith

-- Every key that a plan adds has 65 bytes, and every call is on the rule that was asked for.
pub plan_rotation-calls :
    (req : RotationRequest) (calls : List RotationCall)
    → plan_rotation req ≡ ok calls
    → All (IsAsked req) calls
unfolding plan_rotation
plan_rotation-calls req calls h = ground arith
