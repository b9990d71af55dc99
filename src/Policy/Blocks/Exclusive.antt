-- ===== src/Policy/Blocks/Exclusive.antt =====
-- At most one kind of block takes a rule (packages/passkey-sdk/src/policyBlocks), so the order in
-- which the modules register themselves shows nowhere.
use nido.Base.{List, [], ◌∷◌, none, some, ◌≡◌, refl, ◌∙◌, ap, inl, inr, Option-cases}
unfoldable use mathlib.Core.Option.{or_else}
use nido.Base.Decimal.{Text}
use nido.Policy.{
  ContextType, default_context, call_contract, create_contract, ChainSigner, delegated, external,
  ChainRule, PolicyState, LocalOverlay, MultisigRecoveryBlock,
}
use nido.Policy.Blocks.{
  multisig_claim, multisig_from_chain, session_claim, session_from_chain, limit_claim,
  entry_threshold, Registry, register_policy_block_module, get_policy_block_module,
  all_policy_block_kinds, multisig_recovery_module, scoped_session_key_module, first_claim,
  load_policy_blocks, as_multisig, as_session, push_block,
}

limit_claim-none :
    (rule : ChainRule) (state : PolicyState) (overlay : LocalOverlay) (policies : List Text)
    (context : ContextType) (block : MultisigRecoveryBlock)
    → multisig_claim rule state overlay policies context ≡ some block
    → limit_claim state policies ≡ none
unfolding multisig_claim limit_claim
limit_claim-none rule state overlay [] context block h = cc
limit_claim-none rule state overlay (p ∷ p' ∷ policies) context block h = refl
limit_claim-none rule state overlay (p ∷ []) default_context block h = cc
limit_claim-none rule state overlay (p ∷ []) (create_contract wasm) block h = cc
limit_claim-none rule state overlay (p ∷ []) (call_contract contract) block h =
    elim (Option-cases (entry_threshold state p)) [
      | inl e ↦ absurd (let h' : none ≡ some block = rw (multisig_claim, e) at h in cc)
      | inr (m, e) ↦ rw (limit_claim, e) refl
    ]

session_claim-none :
    (rule : ChainRule) (state : PolicyState) (overlay : LocalOverlay) (context : ContextType)
    (signers : List ChainSigner)
    → limit_claim state rule.policies ≡ none
    → session_claim rule state overlay context signers ≡ none
unfolding session_claim
session_claim-none rule state overlay default_context signers h = refl
session_claim-none rule state overlay (create_contract wasm) signers h = refl
session_claim-none rule state overlay (call_contract target) [] h = refl
session_claim-none rule state overlay (call_contract target) (delegated address ∷ []) h = refl
session_claim-none rule state overlay (call_contract target) (external verifier key ∷ []) h =
    rw (session_claim, h) refl
session_claim-none rule state overlay (call_contract target) (s ∷ s' ∷ signers) h = refl

session_from_chain-none :
    (rule : ChainRule) (state : PolicyState) (overlay : LocalOverlay)
    (block : MultisigRecoveryBlock)
    → multisig_from_chain rule state overlay ≡ some block
    → session_from_chain rule state overlay ≡ none
unfolding multisig_from_chain session_from_chain
session_from_chain-none rule state overlay block h =
    session_claim-none rule state overlay rule.context_type rule.signers
      (limit_claim-none rule state overlay rule.policies rule.context_type block h)

-- The registry as the two modules fill it, in either order.
abbrev pub recovery_first : Registry
recovery_first =
    register_policy_block_module scoped_session_key_module
      (register_policy_block_module multisig_recovery_module [])

abbrev pub session_first : Registry
session_first =
    register_policy_block_module multisig_recovery_module
      (register_policy_block_module scoped_session_key_module [])

claims_commute :
    (overlay : LocalOverlay) (rule : ChainRule) (state : PolicyState)
    → or_else
        (as_multisig (multisig_from_chain rule state overlay))
        (or_else (as_session (session_from_chain rule state overlay)) none)
      ≡ or_else
          (as_session (session_from_chain rule state overlay))
          (or_else (as_multisig (multisig_from_chain rule state overlay)) none)
unfolding or_else
claims_commute overlay rule state = elim (Option-cases (multisig_from_chain rule state overlay)) [
  | inl e ↦ rw e (elim (Option-cases (session_from_chain rule state overlay)) [
    | inl n ↦ rw n refl
    | inr (b, n) ↦ rw n refl
  ])
  | inr (block, e) ↦ rw (e, session_from_chain-none rule state overlay block e) refl
]

first_claim_any_order :
    (overlay : LocalOverlay) (rule : ChainRule) (state : PolicyState)
    → first_claim recovery_first overlay (all_policy_block_kinds recovery_first) rule state
      ≡ first_claim session_first overlay (all_policy_block_kinds session_first) rule state
unfolding first_claim register_policy_block_module get_policy_block_module all_policy_block_kinds
first_claim_any_order overlay rule state = claims_commute overlay rule state

-- Whichever of the two modules registers first, the same blocks are loaded in the same order, for all
-- rules, states of their policies and local overlays.
pub load_policy_blocks_any_order :
    (overlay : LocalOverlay) (state_of : ChainRule → PolicyState) (rules : List ChainRule)
    → load_policy_blocks recovery_first overlay state_of rules
      ≡ load_policy_blocks session_first overlay state_of rules
unfolding load_policy_blocks
load_policy_blocks_any_order overlay state_of [] = refl
load_policy_blocks_any_order overlay state_of (rule ∷ rules) =
    ap (λ claim. push_block claim (load_policy_blocks recovery_first overlay state_of rules))
      (first_claim_any_order overlay rule (state_of rule))
    ∙ ap
        (push_block (
          first_claim session_first overlay (all_policy_block_kinds session_first) rule
            (state_of rule)))
        (load_policy_blocks_any_order overlay state_of rules)
