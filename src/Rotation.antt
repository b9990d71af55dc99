-- ===== src/Rotation.antt =====
-- packages/passkey-sdk/src/policyBlocks/multisigRotation.ts: the plan of a recovery's key rotation,
-- and the payload's signer map of packages/passkey-sdk/src/multiSigner.ts is in Signers.
-- Addresses and keys are lists of codes; "falsy" is written out.
pub mod States
pub mod Plan
use nido.Base.{
  ℕ, ◌+◌, ◌-◌, List, [], ◌∷◌, ◌++◌, Option, none, some, Bool, true, false, ◌&&◌, not, Result, ok,
  err, ◌>>=◌, ◌==◌, ltb, if◌then◌else◌, length,
}

abbrev pub Address : Type 0
Address = List ℕ

pub record NewPasskeySigner : Type 0 where
  pub verifier_address : Address
  pub public_key : List ℕ

pub record RotationRuleState : Type 0 where
  pub signer_count : ℕ
  pub policy_count : ℕ

pub record RotationRequest : Type 0 where
  pub default_rule_id : ℕ
  pub add_passkey : Option NewPasskeySigner
  pub remove_signer_id : Option ℕ
  pub rule_state : Option RotationRuleState
  pub threshold_policy_address : Option Address

pub data RotationCall : Type 0 where
  add_signer : (context_rule_id : ℕ) → (verifier public_key : List ℕ) → RotationCall
  remove_signer : (context_rule_id signer_id : ℕ) → RotationCall
  add_policy : (context_rule_id : ℕ) → Address → (threshold : ℕ) → RotationCall

pub data RotationError : Type 0 where
  bad_key_length : ℕ → RotationError
  nothing_to_rotate : RotationError

-- The number that a present argument counts for.
abbrev pub count_of {ℓ} : {A : Type ℓ} → Option A → ℕ
count_of none = 0
count_of (some a) = 1

-- `add_policy` first, when the rotation would leave several signers and no policy. A difference
-- below zero is not above one either.
abbrev pub policy_calls :
    RotationRequest → Option RotationRuleState → Option Address → List RotationCall
policy_calls req (some state) (some (c ∷ address)) =
    if state.policy_count == 0
      && ltb 1 (state.signer_count + count_of req.add_passkey - count_of req.remove_signer_id)
    then add_policy req.default_rule_id (c ∷ address) 1 ∷ []
    else []
policy_calls req (some state) (some []) = []
policy_calls req (some state) none = []
policy_calls req none address = []

abbrev pub add_calls :
    RotationRequest → Option NewPasskeySigner → Result RotationError (List RotationCall)
add_calls req none = ok []
add_calls req (some passkey) =
    if not (length passkey.public_key == 65)
    then err (bad_key_length (length passkey.public_key))
    else ok (add_signer req.default_rule_id passkey.verifier_address passkey.public_key ∷ [])

abbrev pub remove_calls : RotationRequest → Option ℕ → List RotationCall
remove_calls req none = []
remove_calls req (some signer_id) = remove_signer req.default_rule_id signer_id ∷ []

unfoldable pub plan_rotation : RotationRequest → Result RotationError (List RotationCall)
plan_rotation req = do
  added ← add_calls req req.add_passkey
  let calls =
      policy_calls req req.rule_state req.threshold_policy_address
      ++ added
      ++ remove_calls req req.remove_signer_id
  if length calls == 0 then err nothing_to_rotate else ok calls
