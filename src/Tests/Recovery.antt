-- ===== src/Tests/Recovery.antt =====
-- Field elements and the rotation plan.
use nido.Base.{
  ℕ, ◌<◌, ◌≡◌, ◌≢◌, ◌⊎◌, ◌↔◌, refl, List, [], ◌∷◌, ◌++◌, none, some, false, ok, All, replicate,
  arith,
}
use nido.ZkRecovery.Field.{Bytes, bytes_to_field_canonical, bytes_to_big_int_be}
use nido.Rotation.{
  NewPasskeySigner, RotationRuleState, RotationCall, plan_rotation, add_signer, remove_signer,
  add_policy,
}
use nido.Rotation.States.{states, is_n_of_n}
use nido.Rotation.Plan.{request, states-is_n_of_n, replace-is_n_of_n_iff, states-signer_count}

abbrev seven : Bytes
seven = replicate 31 0 ++ 7 ∷ []

seven_lem : bytes_to_field_canonical seven ≡ ok 7
unfolding bytes_to_field_canonical bytes_to_big_int_be
seven_lem = refl

abbrev passkey : NewPasskeySigner
passkey = record { verifier_address = 67 ∷ []; public_key = replicate 65 4 }

abbrev one_signer : RotationRuleState
one_signer = record { signer_count = 1; policy_count = 0 }

abbrev adding : List RotationCall
adding = add_policy 0 (67 ∷ 68 ∷ []) 1 ∷ add_signer 0 (67 ∷ []) (replicate 65 4) ∷ []

adding_lem : plan_rotation (request 0 (some passkey) none one_signer 67 (68 ∷ [])) ≡ ok adding
unfolding plan_rotation
adding_lem = refl

abbrev replacing : List RotationCall
replacing = add_signer 0 (67 ∷ []) (replicate 65 4) ∷ remove_signer 0 3 ∷ []

replacing_lem :
    plan_rotation (request 0 (some passkey) (some 3) one_signer 67 (68 ∷ [])) ≡ ok replacing
unfolding plan_rotation
replacing_lem = refl

states-is_n_of_n_example : All (λ s. is_n_of_n s ≡ false) (states adding one_signer)
states-is_n_of_n_example =
    states-is_n_of_n 0 (some passkey) none one_signer 67 (68 ∷ []) adding (omega arith) refl
      adding_lem

replace-is_n_of_n_iff_example :
    All (λ s. is_n_of_n s ≡ false) (states replacing one_signer)
    ↔ ((◌≢◌ {A = ℕ} 1 1) ⊎ (◌≢◌ {A = ℕ} 0 0))
replace-is_n_of_n_iff_example =
    replace-is_n_of_n_iff 0 passkey 3 one_signer 67 (68 ∷ []) replacing refl replacing_lem

states-signer_count_example : All (λ s. 0 < s.signer_count) (states replacing one_signer)
states-signer_count_example =
    states-signer_count (request 0 (some passkey) (some 3) one_signer 67 (68 ∷ [])) one_signer
      replacing (omega arith) (omega arith) replacing_lem
