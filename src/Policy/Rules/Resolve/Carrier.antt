-- ===== src/Policy/Rules/Resolve/Carrier.antt =====
-- packages/frontend/src/lib/policyChainFetch.ts: `resolveSignerRule` returns the first rule that carries
-- the key.
use nido.Base.{
  ℕ, ◌<◌, ◌≤◌, List, [], ◌∷◌, ◌++◌, Option, none, some, ◌≡◌, ◌≢◌, Result, ok, err, length, All,
}
use nido.Base.Decimal.{Text}
use nido.ZkRecovery.Field.{Bytes}
use nido.Policy.Rules.{
  RawSigner, delegated_tag, external_tag, unknown_signer_tag, RawContextRule, ScanError,
  scan_exhausted,
}
use nido.Policy.Rules.Resolve.{bytes_to_hex, SignerRule}

-- The signer is a passkey with a key that is not empty, of these digits.
abbrev pub Carries : Text → RawSigner → Type 0
Carries hex (external_tag verifier public_key) =
    (bytes_to_hex public_key ≡ hex) × (bytes_to_hex public_key ≢ [])
Carries hex (delegated_tag address) = ⊥
Carries hex (unknown_signer_tag tag) = ⊥

abbrev pub Misses : Text → RawSigner → Type 0
Misses hex s = ¬ Carries hex s

-- The first signer of a list that carries the key, and its verifier.
pub record IsVerifierOf (hex : Text) (signers : List RawSigner) (verifier : Text) : Type 0 where
  pub before : List RawSigner
  pub after : List RawSigner
  pub public_key : Bytes
  pub at : signers ≡ before ++ external_tag verifier public_key ∷ after
  pub carried : Carries hex (external_tag verifier public_key)
  pub earlier : All (Misses hex) before

-- The first rule of a list with a signer that carries the key.
pub record IsFirstCarrier (hex : Text) (rules : List RawContextRule) (resolved : SignerRule)
    : Type 0 where
  pub before : List RawContextRule
  pub rule : RawContextRule
  pub after : List RawContextRule
  pub at : rules ≡ before ++ rule ∷ after
  pub same_id : resolved.rule_id ≡ rule.id
  pub signer : IsVerifierOf hex rule.signers resolved.verifier
  pub earlier : All (λ (r : RawContextRule). All (Misses hex) r.signers) before

abbrev pub NoCarrier : Text → List RawContextRule → Type 0
NoCarrier hex rules = All (λ (r : RawContextRule). All (Misses hex) r.signers) rules

-- What an answer says of the rules in reach, when `count` are live.
abbrev pub IsAnswer : Text → ℕ → List RawContextRule → Result ScanError (Option SignerRule) → Type 0
IsAnswer hex count rules (ok (some resolved)) = IsFirstCarrier hex rules resolved
IsAnswer hex count rules (ok none) = NoCarrier hex rules × (count ≤ length rules)
IsAnswer hex count rules (err error) =
    NoCarrier hex rules × (length rules < count) × (error ≡ scan_exhausted (length rules) count)

-- What the search in one rule's signers says.
abbrev Found : Text → List RawSigner → Option Text → Type 0
Found hex signers (some verifier) = IsVerifierOf hex signers verifier
Found hex signers none = All (Misses hex) signers

abbrev FirstFound : Text → List RawContextRule → Option SignerRule → Type 0
FirstFound hex rules (some resolved) = IsFirstCarrier hex rules resolved
FirstFound hex rules none = NoCarrier hex rules
