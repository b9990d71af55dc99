-- ===== src/Rotation/States.antt =====
-- The rule that the calls of a plan act on, one transaction to a call, as the module's comment
-- describes it: several signers with no policy must all sign.
use nido.Base.{◌+◌, ◌-◌, List, [], ◌∷◌, Bool, ◌&&◌, ◌==◌, ltb}
use nido.Rotation.{RotationRuleState, RotationCall, add_signer, remove_signer, add_policy}

abbrev pub apply : RotationCall → RotationRuleState → RotationRuleState
apply (add_signer rule verifier key) s = record s { signer_count = s.signer_count + 1 }
apply (remove_signer rule signer) s = record s { signer_count = s.signer_count - 1 }
apply (add_policy rule policy threshold) s = record s { policy_count = s.policy_count + 1 }

-- The states after each call.
abbrev pub states : List RotationCall → RotationRuleState → List RotationRuleState
states [] s = []
states (call ∷ calls) s = apply call s ∷ states calls (apply call s)

-- The state after the last call.
abbrev pub final : List RotationCall → RotationRuleState → RotationRuleState
final [] s = s
final (call ∷ calls) s = final calls (apply call s)

-- Every signer must sign.
abbrev pub is_n_of_n : RotationRuleState → Bool
is_n_of_n s = ltb 1 s.signer_count && s.policy_count == 0
