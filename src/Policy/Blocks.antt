-- ===== src/Policy/Blocks.antt =====
-- packages/passkey-sdk/src/policyBlocks: the two kinds of block that a rule can be (`fromChain` of
-- multisigRecovery.ts and scopedSessionKey.ts), the registry of kinds, and the loader of a page's
-- blocks. What the loader is given for a rule's state is a parameter.
pub mod Exclusive
pub mod Visible
pub mod Wording
use nido.Base.{
  ℕ, zero, suc, List, [], ◌∷◌, ◌++◌, Option, none, some, Bool, true, false, if◌then◌else◌, length,
}
unfoldable use mathlib.Core.Option.{or_else}
use nido.Base.Decimal.{Text}
use nido.Base.Int.{ℤ}
use nido.Base.Dict.{Dict, lookup}
use nido.Base.Texts.{codes}
use nido.ZkRecovery.Field.{Bytes}
use nido.Policy.{
  ContextType, default_context, call_contract, create_contract, ChainSigner, delegated, external,
  ChainRule, SpendingLimit, unreadable, limit, PolicyEntry, PolicyState, SessionKeyMaterial,
  LocalOverlay, Friend, MultisigRecoveryBlock, ScopedSessionKeyBlock, PolicyBlock,
  multisig_recovery, scoped_session_key,
}

unfoldable pub delegated_friends : LocalOverlay → List ChainSigner → List Friend
delegated_friends overlay [] = []
delegated_friends overlay (delegated address ∷ signers) =
    record { address = address; input_as = address; nickname = overlay.friend_nicknames address }
    ∷ delegated_friends overlay signers
delegated_friends overlay (external verifier public_key ∷ signers) =
    delegated_friends overlay signers

-- `state[policy]?.threshold`
unfoldable pub entry_threshold : PolicyState → Text → Option ℕ
entry_threshold state policy = elim (lookup policy state) [
  | none ↦ none
  | some entry ↦ entry.threshold
]

unfoldable pub entry_limit : PolicyState → Text → Option SpendingLimit
entry_limit state policy = elim (lookup policy state) [
  | none ↦ none
  | some entry ↦ entry.spending_limit
]

abbrev pub recovery_block : ChainRule → LocalOverlay → ℕ → MultisigRecoveryBlock
recovery_block rule overlay threshold = record {
  rule_id = some rule.rule_id;
  threshold = threshold;
  friends = delegated_friends overlay rule.signers;
  label = overlay.block_labels rule.rule_id;
}

-- `multisigRecoveryModule.fromChain`, of the rule's policies and context.
unfoldable pub multisig_claim :
    ChainRule → PolicyState → LocalOverlay → List Text → ContextType → Option MultisigRecoveryBlock
multisig_claim rule state overlay [] context = none
multisig_claim rule state overlay (policy ∷ policies) default_context = none
multisig_claim rule state overlay (policy ∷ policies) (create_contract wasm) = none
multisig_claim rule state overlay (policy ∷ policies) (call_contract contract) =
    elim (entry_threshold state policy) [
      | none ↦ none
      | some threshold ↦ some (recovery_block rule overlay threshold)
    ]

unfoldable pub multisig_from_chain :
    ChainRule → PolicyState → LocalOverlay → Option MultisigRecoveryBlock
multisig_from_chain rule state overlay =
    multisig_claim rule state overlay rule.policies rule.context_type

-- The limit that a session key's policies give: `none` for a rule that is none.
pub data LimitClaim : Type 0 where
  no_limit limit_unknown : LimitClaim
  limited : (stroops : ℤ) (period_ledgers : ℕ) → LimitClaim

unfoldable pub limit_claim : PolicyState → List Text → Option LimitClaim
limit_claim state [] = some no_limit
limit_claim state (policy ∷ []) = elim (entry_threshold state policy) [
  | some threshold ↦ none
  | none ↦ elim (entry_limit state policy) [
    | none ↦ some limit_unknown
    | some unreadable ↦ some limit_unknown
    | some (limit stroops period) ↦ some (limited stroops period)
  ]
]
limit_claim state (policy ∷ another ∷ policies) = none

abbrev pub limit_of : LimitClaim → Option (ℤ × ℕ)
limit_of no_limit = none
limit_of limit_unknown = none
limit_of (limited stroops period) = some (stroops, period)

abbrev pub is_unknown : LimitClaim → Bool
is_unknown no_limit = false
is_unknown limit_unknown = true
is_unknown (limited stroops period) = false

abbrev pub session_block :
    ChainRule → LocalOverlay → Text → Bytes → LimitClaim → ScopedSessionKeyBlock
session_block rule overlay target public_key claim = record {
  rule_id = some rule.rule_id;
  target_contract = target;
  session_pubkey = public_key;
  credential_id = elim (overlay.session_key_material target) [
    | none ↦ codes "unknown"
    | some material ↦ material.credential_id
  ];
  valid_until = rule.valid_until;
  label =
      or_else
        (elim (overlay.session_key_material target) [
          | none ↦ none
          | some material ↦ material.label
        ])
        (overlay.block_labels rule.rule_id);
  limit_stroops = limit_of claim;
  limit_unreadable = is_unknown claim;
}

-- `scopedSessionKeyModule.fromChain`, of the rule's context and signers.
unfoldable pub session_claim :
    ChainRule
    → PolicyState
    → LocalOverlay
    → ContextType
    → List ChainSigner
    → Option ScopedSessionKeyBlock
session_claim rule state overlay default_context signers = none
session_claim rule state overlay (create_contract wasm) signers = none
session_claim rule state overlay (call_contract target) [] = none
session_claim rule state overlay (call_contract target) (delegated address ∷ []) = none
session_claim rule state overlay (call_contract target) (external verifier public_key ∷ []) =
    elim (limit_claim state rule.policies) [
      | none ↦ none
      | some claim ↦ some (session_block rule overlay target public_key claim)
    ]
session_claim rule state overlay (call_contract target) (s ∷ s' ∷ signers) = none

unfoldable pub session_from_chain :
    ChainRule → PolicyState → LocalOverlay → Option ScopedSessionKeyBlock
session_from_chain rule state overlay =
    session_claim rule state overlay rule.context_type rule.signers

pub data BlockKind : Type 0 where
  multisig_kind scoped_kind : BlockKind

-- The part of a module of policyBlocks that the loader calls.
pub record PolicyBlockModule : Type 0 where
  pub kind : BlockKind
  pub from_chain : ChainRule → PolicyState → LocalOverlay → Option PolicyBlock

abbrev pub Registry : Type 0
Registry = List PolicyBlockModule

abbrev pub same_kind : BlockKind → BlockKind → Bool
same_kind multisig_kind multisig_kind = true
same_kind multisig_kind scoped_kind = false
same_kind scoped_kind multisig_kind = false
same_kind scoped_kind scoped_kind = true

-- A kind that is registered already keeps its place.
unfoldable pub register_policy_block_module : PolicyBlockModule → Registry → Registry
register_policy_block_module mod' [] = mod' ∷ []
register_policy_block_module mod' (m ∷ registry) =
    let rest = register_policy_block_module mod' registry in
    if same_kind m.kind mod'.kind then mod' ∷ registry else m ∷ rest

unfoldable pub get_policy_block_module : BlockKind → Registry → Option PolicyBlockModule
get_policy_block_module kind [] = none
get_policy_block_module kind (m ∷ registry) =
    let rest = get_policy_block_module kind registry in
    if same_kind m.kind kind then some m else rest

unfoldable pub all_policy_block_kinds : Registry → List BlockKind
all_policy_block_kinds [] = []
all_policy_block_kinds (m ∷ registry) = m.kind ∷ all_policy_block_kinds registry

abbrev pub as_multisig : Option MultisigRecoveryBlock → Option PolicyBlock
as_multisig none = none
as_multisig (some block) = some (multisig_recovery block)

abbrev pub as_session : Option ScopedSessionKeyBlock → Option PolicyBlock
as_session none = none
as_session (some block) = some (scoped_session_key block)

-- `if (block) out.push(block)`.
abbrev pub push_block : Option PolicyBlock → List PolicyBlock → List PolicyBlock
push_block none blocks = blocks
push_block (some block) blocks = block ∷ blocks

abbrev pub multisig_recovery_module : PolicyBlockModule
multisig_recovery_module = record {
  kind = multisig_kind;
  from_chain = λ rule state overlay. as_multisig (multisig_from_chain rule state overlay);
}

abbrev pub scoped_session_key_module : PolicyBlockModule
scoped_session_key_module = record {
  kind = scoped_kind;
  from_chain = λ rule state overlay. as_session (session_from_chain rule state overlay);
}

module _ (registry : Registry) (overlay : LocalOverlay) where
  -- The first block that a registered kind makes of the rule.
  unfoldable pub first_claim : List BlockKind → ChainRule → PolicyState → Option PolicyBlock
  first_claim [] rule state = none
  first_claim (kind ∷ kinds) rule state =
      let rest = first_claim kinds rule state in
      elim (get_policy_block_module kind registry) [
        | none ↦ rest
        | some m ↦ or_else (m.from_chain rule state overlay) rest
      ]

  unfoldable pub load_policy_blocks : (ChainRule → PolicyState) → List ChainRule → List PolicyBlock
  load_policy_blocks state_of [] = []
  load_policy_blocks state_of (rule ∷ rules) =
      let rest = load_policy_blocks state_of rules in
      push_block (first_claim (all_policy_block_kinds registry) rule (state_of rule)) rest
