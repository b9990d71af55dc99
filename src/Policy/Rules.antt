-- ===== src/Policy/Rules.antt =====
-- packages/frontend/src/lib/policyChainFetch.ts: the rules of an account, read by their ids. What a
-- simulated view returns, decoded, is a parameter: a rule, the error of a revoked id, or another
-- failure. An enum is decoded to its tag and its values.
pub mod Scan
pub mod Resolve
use nido.Base.{
  ℕ, zero, suc, ◌+◌, List, [], ◌∷◌, ◌++◌, Option, none, some, Bool, true, false, ◌&&◌, Result, ok,
  err, ◌>>=◌, ltb, if◌then◌else◌, length, ◌≡◌, refl, ◌⊎◌, inl, inr,
}
use nido.Base.Decimal.{Text}
use nido.Base.Texts.{same_text}
use nido.ZkRecovery.Field.{Bytes}
use nido.Policy.{
  ContextType, default_context, call_contract, create_contract, ChainSigner, delegated, external,
  ChainRule,
}

pub data RawContext : Type 0 where
  default_tag : RawContext
  call_contract_tag : (contract : Text) → RawContext
  create_contract_tag : (wasm : Bytes) → RawContext
  unknown_context_tag : (tag : Text) → RawContext

pub data RawSigner : Type 0 where
  delegated_tag : (address : Text) → RawSigner
  external_tag : (verifier : Text) (public_key : Bytes) → RawSigner
  unknown_signer_tag : (tag : Text) → RawSigner

-- The lists are empty where the struct has none; `signer_ids` is aligned with `signers`.
pub record RawContextRule : Type 0 where
  pub id : ℕ
  pub context_type : RawContext
  pub name : Text
  pub signers : List RawSigner
  pub signer_ids : List ℕ
  pub policies : List Text
  pub valid_until : Option ℕ

pub data ScanError : Type 0 where
  unknown_context unknown_signer : (tag : Text) → ScanError
  read_failed : ℕ → ScanError
  scan_exhausted : (found count : ℕ) → ScanError

unfoldable pub parse_context_type : RawContext → Result ScanError ContextType
parse_context_type default_tag = ok default_context
parse_context_type (call_contract_tag contract) = ok (call_contract contract)
parse_context_type (create_contract_tag wasm) = ok (create_contract wasm)
parse_context_type (unknown_context_tag tag) = err (unknown_context tag)

unfoldable pub parse_signer : RawSigner → Result ScanError ChainSigner
parse_signer (delegated_tag address) = ok (delegated address)
parse_signer (external_tag verifier public_key) = ok (external verifier public_key)
parse_signer (unknown_signer_tag tag) = err (unknown_signer tag)

unfoldable pub parse_signers : List RawSigner → Result ScanError (List ChainSigner)
parse_signers [] = ok []
parse_signers (s ∷ signers) = do
  signer ← parse_signer s
  rest ← parse_signers signers
  ok (signer ∷ rest)

unfoldable pub parse_rule : RawContextRule → Result ScanError ChainRule
parse_rule native = do
  context ← parse_context_type native.context_type
  signers ← parse_signers native.signers
  ok (record {
    rule_id = native.id;
    context_type = context;
    name = native.name;
    signers = signers;
    policies = native.policies;
    valid_until = native.valid_until;
  })

-- What reading one id gives. `not_found` is what `isRuleNotFound` recognises.
pub data View : Type 0 where
  found_rule : RawContextRule → View
  not_found : View
  failed_read : View

pub View-cases :
    (v : View)
    → ((native : RawContextRule) × (v ≡ found_rule native)) ⊎ ((v ≡ not_found) ⊎ (v ≡ failed_read))
View-cases (found_rule native) = inl (native, refl)
View-cases not_found = inr (inl refl)
View-cases failed_read = inr (inr refl)

abbrev pub scan_margin : ℕ
scan_margin = 100

module _ (view : ℕ → View) where
  -- The loop of `fetchAllChainRules` from `id` on, with `bound` ids left, until `found` is `count`.
  unfoldable pub scan_from : ℕ → ℕ → ℕ → ℕ → List ChainRule → Result ScanError (List ChainRule)
  scan_from zero id count found out = ok out
  scan_from (suc bound) id count found out =
      if ltb found count
      then elim (view id) [
        | found_rule native ↦ parse_rule native >>= λ rule.
            scan_from bound (suc id) count (suc found) (out ++ rule ∷ [])
        | not_found ↦ scan_from bound (suc id) count found out
        | failed_read ↦ err (read_failed id)
      ]
      else ok out

  unfoldable pub fetch_all_chain_rules : ℕ → Result ScanError (List ChainRule)
  fetch_all_chain_rules count = scan_from (count + scan_margin) 0 count 0 [] >>= λ out.
      if ltb (length out) count then err (scan_exhausted (length out) count) else ok out
