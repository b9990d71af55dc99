-- ===== src/Policy/Summary.antt =====
-- packages/frontend/src/lib/securitySummary.ts: the counts of the home page's security card.
use nido.Base.{
  ℕ, ◌+◌, List, [], ◌∷◌, Option, none, some, Bool, Result, ok, ◌>>=◌, ◌≡◌, refl, length, arith,
}
unfoldable use mathlib.Core.Option.{or_else}
use nido.Policy.{
  ChainRule, PolicyState, LocalOverlay, PolicyBlock, multisig_recovery, scoped_session_key,
  MultisigRecoveryBlock, ScopedSessionKeyBlock,
}
use nido.Policy.Blocks.{Registry, load_policy_blocks}
use nido.Policy.Rules.{View, ScanError, fetch_all_chain_rules}

pub record Quorum : Type 0 where
  pub threshold : ℕ
  pub friends : ℕ

pub record Totals : Type 0 where
  pub recovery : Option Quorum
  pub delegations : ℕ

pub record SecuritySummary : Type 0 where
  pub has_passkey : Bool
  pub totals : Totals

abbrev pub quorum_of : MultisigRecoveryBlock → Quorum
quorum_of block = record { threshold = block.threshold; friends = length block.friends }

abbrev pub no_totals : Totals
no_totals = record { recovery = none; delegations = 0 }

-- One step of the loop of `summarizePolicyBlocks`.
unfoldable pub count_block : Totals → PolicyBlock → Totals
count_block totals (multisig_recovery block) = record {
  recovery = or_else totals.recovery (some (quorum_of block));
  delegations = totals.delegations;
}
count_block totals (scoped_session_key block) = record {
  recovery = totals.recovery;
  delegations = totals.delegations + 1;
}

unfoldable pub summarize_from : Totals → List PolicyBlock → Totals
summarize_from totals [] = totals
summarize_from totals (block ∷ blocks) = summarize_from (count_block totals block) blocks

unfoldable pub summarize_policy_blocks : List PolicyBlock → Totals
summarize_policy_blocks blocks = summarize_from no_totals blocks

-- `has_passkey` is whether a credential of the account is stored.
unfoldable pub fetch_security_summary :
    Registry
    → (has_passkey : Bool) → LocalOverlay
    → (ℕ → View)
    → (count : ℕ) → (ChainRule → PolicyState)
    → Result ScanError SecuritySummary
fetch_security_summary registry has_passkey overlay view count state_of =
    fetch_all_chain_rules view count >>= λ rules. ok (record {
      has_passkey = has_passkey;
      totals = summarize_policy_blocks (load_policy_blocks registry overlay state_of rules);
    })

-- The two kinds, apart.
unfoldable pub recoveries : List PolicyBlock → List MultisigRecoveryBlock
recoveries [] = []
recoveries (multisig_recovery block ∷ blocks) = block ∷ recoveries blocks
recoveries (scoped_session_key block ∷ blocks) = recoveries blocks

unfoldable pub session_keys : List PolicyBlock → List ScopedSessionKeyBlock
session_keys [] = []
session_keys (multisig_recovery block ∷ blocks) = session_keys blocks
session_keys (scoped_session_key block ∷ blocks) = block ∷ session_keys blocks

abbrev pub first_quorum : List MultisigRecoveryBlock → Option Quorum
first_quorum [] = none
first_quorum (block ∷ blocks) = some (quorum_of block)

or_else-some :
    (recovery : Option Quorum) (q : Quorum) (next : Option Quorum)
    → or_else (or_else recovery (some q)) next ≡ or_else recovery (some q)
unfolding or_else
or_else-some none q next = refl
or_else-some (some r) q next = refl

or_else-none : (recovery : Option Quorum) → or_else recovery none ≡ recovery
unfolding or_else
or_else-none none = refl
or_else-none (some r) = refl

recovery-summarize_from :
    (totals : Totals) (blocks : List PolicyBlock)
    → (summarize_from totals blocks).recovery
      ≡ or_else totals.recovery (first_quorum (recoveries blocks))
unfolding summarize_from count_block recoveries
recovery-summarize_from totals [] = rw (or_else-none totals.recovery) refl
recovery-summarize_from totals (multisig_recovery block ∷ blocks) =
    rw
      (
        recovery-summarize_from (count_block totals (multisig_recovery block)) blocks,
        or_else-some totals.recovery (quorum_of block) (first_quorum (recoveries blocks)),
      )
      refl
recovery-summarize_from totals (scoped_session_key block ∷ blocks) =
    recovery-summarize_from (count_block totals (scoped_session_key block)) blocks

delegations-summarize_from :
    (totals : Totals) (blocks : List PolicyBlock)
    → (summarize_from totals blocks).delegations ≡ totals.delegations + length (session_keys blocks)
unfolding summarize_from count_block session_keys
delegations-summarize_from totals [] = omega arith
delegations-summarize_from totals (multisig_recovery block ∷ blocks) =
    delegations-summarize_from (count_block totals (multisig_recovery block)) blocks
delegations-summarize_from totals (scoped_session_key block ∷ blocks) =
    omega (arith, delegations-summarize_from (count_block totals (scoped_session_key block)) blocks)

-- The security card shows the quorum of the first recovery block and the number of all session keys,
-- in whatever order the two kinds stand among the blocks.
pub summarize_policy_blocks_lem :
    (blocks : List PolicyBlock)
    → ((summarize_policy_blocks blocks).recovery ≡ first_quorum (recoveries blocks))
      × ((summarize_policy_blocks blocks).delegations ≡ length (session_keys blocks))
unfolding summarize_policy_blocks or_else
summarize_policy_blocks_lem blocks = (
  recovery-summarize_from no_totals blocks,
  omega (arith, delegations-summarize_from no_totals blocks),
)
