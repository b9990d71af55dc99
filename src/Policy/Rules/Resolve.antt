-- ===== src/Policy/Rules/Resolve.antt =====
-- packages/frontend/src/lib/policyChainFetch.ts: the rule that a passkey signs under
-- (`resolveSignerRule`, `findRuleForPubkey`) and the verifier of the default rule.
pub mod Carrier
use nido.Base.{
  ℕ, zero, suc, ◌+◌, ◌-◌, ◌<◌, List, [], ◌∷◌, ◌++◌, Option, none, some, ◌≡◌, ◌≢◌, refl, ◌&&◌, not,
  Result, ok, err, if◌then◌else◌, ltb, leb, length, take, arith, inl, inr, Bool-cases, Option-cases,
}
unfoldable use mathlib.Core.Option.{or_else}
use nido.Base.Decimal.{Text}
use nido.Base.Hex.{padded_hex}
use nido.Base.Texts.{same_text}
use nido.ZkRecovery.Field.{Bytes}
use nido.Policy.Rules.Scan.{take-nil, take_none, take_next}
use nido.Policy.Rules.{
  View-cases, RawSigner, delegated_tag, external_tag, unknown_signer_tag, RawContextRule, View,
  found_rule, not_found, failed_read, ScanError, read_failed, scan_exhausted, scan_margin,
}

-- `b.toString(16).padStart(2, '0')` of each byte, joined.
unfoldable pub bytes_to_hex : Bytes → Text
bytes_to_hex [] = []
bytes_to_hex (b ∷ bytes) = padded_hex 2 b ++ bytes_to_hex bytes

-- `toLowerCase`; no letter outside ASCII has a hexadecimal digit as its lower case.
unfoldable pub to_lower_case : Text → Text
to_lower_case [] = []
to_lower_case (c ∷ s) =
    let rest = to_lower_case s in if leb b'A' c && leb c b'Z' then (c + 32) ∷ rest else c ∷ rest

-- The verifier of the first External signer whose key has the hex `lower_hex`. An empty key is no
-- candidate.
unfoldable pub verifier_for : Text → List RawSigner → Option Text
verifier_for lower_hex [] = none
verifier_for lower_hex (external_tag verifier public_key ∷ signers) =
    let rest = verifier_for lower_hex signers in
    if not (same_text (bytes_to_hex public_key) []) && same_text (bytes_to_hex public_key) lower_hex
    then some verifier
    else rest
verifier_for lower_hex (delegated_tag address ∷ signers) = verifier_for lower_hex signers
verifier_for lower_hex (unknown_signer_tag tag ∷ signers) = verifier_for lower_hex signers

pub record SignerRule : Type 0 where
  pub rule_id : ℕ
  pub verifier : Text

unfoldable pub signer_rule_of : Text → RawContextRule → Option SignerRule
signer_rule_of lower_hex native = elim (verifier_for lower_hex native.signers) [
  | none ↦ none
  | some verifier ↦ some (record { rule_id = native.id; verifier = verifier })
]

unfoldable pub first_external : List RawSigner → Option Text
first_external [] = none
first_external (external_tag verifier public_key ∷ signers) = some verifier
first_external (delegated_tag address ∷ signers) = first_external signers
first_external (unknown_signer_tag tag ∷ signers) = first_external signers

-- `return` of what was found, or the rest of the search.
abbrev pub or_next :
    Option SignerRule → Result ScanError (Option SignerRule) → Result ScanError (Option SignerRule)
or_next none next = next
or_next (some resolved) next = ok (some resolved)

-- The end of the search: a truncated scan is an error.
abbrev pub end_of_scan : ℕ → ℕ → Result ScanError (Option SignerRule)
end_of_scan found count = if ltb found count then err (scan_exhausted found count) else ok none

module _ (view : ℕ → View) where
  -- The loop of `resolveSignerRule` from `id` on, with `bound` ids left.
  unfoldable pub resolve_from : Text → ℕ → ℕ → ℕ → ℕ → Result ScanError (Option SignerRule)
  resolve_from lower_hex zero id count found = end_of_scan found count
  resolve_from lower_hex (suc bound) id count found =
      let next = resolve_from lower_hex bound (suc id) count (suc found) in
      let skip = resolve_from lower_hex bound (suc id) count found in
      if ltb found count
      then elim (view id) [
        | found_rule native ↦ or_next (signer_rule_of lower_hex native) next
        | not_found ↦ skip
        | failed_read ↦ err (read_failed id)
      ]
      else ok none

  unfoldable pub resolve_signer_rule : Text → ℕ → Result ScanError (Option SignerRule)
  resolve_signer_rule pubkey_hex count =
      resolve_from (to_lower_case pubkey_hex) (count + scan_margin) 0 count 0

  unfoldable pub find_rule_for_pubkey : Text → ℕ → Result ScanError (Option ℕ)
  find_rule_for_pubkey pubkey_hex count = elim (resolve_signer_rule pubkey_hex count) [
    | err e ↦ err e
    | ok none ↦ ok none
    | ok (some resolved) ↦ ok (some resolved.rule_id)
  ]

  -- `registry` is the answer of the registry for the name `verifier`.
  unfoldable pub fetch_verifier_address {error} :
      {E : Type error} (registry : Result E Text) → Result E Text
  fetch_verifier_address registry = elim (view 0) [
    | found_rule native ↦ elim (first_external native.signers) [
      | some verifier ↦ ok verifier
      | none ↦ registry
    ]
    | not_found ↦ registry
    | failed_read ↦ registry
  ]

-- What one view contributes to the search: the rule that it reads.
unfoldable pub seen : (ℕ → View) → ℕ → ℕ → List RawContextRule
seen view zero id = []
seen view (suc bound) id =
    let rest = seen view bound (suc id) in
    elim (view id) [ found_rule native ↦ native ∷ rest | not_found ↦ rest | failed_read ↦ rest ]

-- The first rule of a list that carries the key.
unfoldable pub first_with : Text → List RawContextRule → Option SignerRule
first_with lower_hex [] = none
first_with lower_hex (native ∷ rules) =
    let rest = first_with lower_hex rules in or_else (signer_rule_of lower_hex native) rest

-- What `resolveSignerRule` answers of the rules that it saw, `found` of them before these.
unfoldable pub resolution :
    Text → ℕ → ℕ → List RawContextRule → Result ScanError (Option SignerRule)
resolution lower_hex count found rules =
    or_next (first_with lower_hex rules) (end_of_scan (found + length rules) count)

resolution-next :
    (lower_hex : Text) (count found : ℕ) (native : RawContextRule) (rules : List RawContextRule)
    → resolution lower_hex count found (native ∷ rules)
      ≡ or_next (signer_rule_of lower_hex native) (resolution lower_hex count (suc found) rules)
unfolding resolution first_with or_else
resolution-next lower_hex count found native rules =
    let moved : found + suc (length rules) ≡ suc found + length rules = omega arith in
    elim (Option-cases (signer_rule_of lower_hex native)) [
      | inl e ↦ rw (e, moved) refl
      | inr (resolved, e) ↦ rw e refl
    ]

resolution-nil :
    (lower_hex : Text) (count found : ℕ)
    → resolution lower_hex count found [] ≡ end_of_scan found count
unfolding resolution first_with or_else
resolution-nil lower_hex count found = let still : found + 0 ≡ found = omega arith in rw still refl

module _ (view : ℕ → View) (answers : (id : ℕ) → view id ≢ failed_read) (lower_hex : Text) where
  resolve-seen :
      (bound id count found : ℕ)
      → resolve_from view lower_hex bound id count found
        ≡ resolution lower_hex count found (take (count - found) (seen view bound id))
  unfolding resolve_from seen
  resolve-seen zero id count found =
      rw (take-nil {A = RawContextRule} (count - found), resolution-nil lower_hex count found) refl
  resolve-seen (suc bound) id count found = elim (Bool-cases (ltb found count)) [
    | inr full ↦
        let none_left : count - found ≡ 0 = ground arith in
        rw
          (
            full,
            take_none (count - found) (seen view (suc bound) id) none_left,
            resolution-nil lower_hex count found,
            full,
          )
          refl
    | inl more ↦ rw more (elim (View-cases (view id)) [
      | inl (native, v) ↦
          let below : found < count = ground arith in
          rw
            (
              seen,
              v,
              take_next found count native (seen view bound (suc id)) below,
              resolution-next lower_hex count found native
                  (take (count - suc found) (seen view bound (suc id))),
              resolve-seen bound (suc id) count (suc found),
            )
            refl
      | inr (inl v) ↦ rw (seen, v) (resolve-seen bound (suc id) count found)
      | inr (inr v) ↦ absurd (answers id v)
    ])
  ]

module _ (view : ℕ → View) (answers : (id : ℕ) → view id ≢ failed_read) where
  -- The search answers of the rules that the views show what it answers of their list.
  pub resolve_signer_rule-seen :
      (pubkey_hex : Text) (count : ℕ)
      → resolve_signer_rule view pubkey_hex count
        ≡ resolution
            (to_lower_case pubkey_hex)
            count
            0
            (take count (seen view (count + scan_margin) 0))
  unfolding resolve_signer_rule
  resolve_signer_rule-seen pubkey_hex count =
      let whole : count - 0 ≡ count = omega arith in
      rw
        (
          resolve-seen view answers (to_lower_case pubkey_hex) (count + scan_margin) 0 count 0,
          whole,
        )
        refl
