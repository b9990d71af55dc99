-- ===== src/Policy/Blocks/Wording.antt =====
-- What the blocks are shown as: `summarize` and `formatSpendingLimit` of
-- packages/passkey-sdk/src/policyBlocks, and the drafts that the editor starts from.
use nido.Base.{
  ℕ, ◌/◌, ◌%◌, [], ◌∷◌, ◌++◌, none, some, false, ◌≡◌, refl, ◌==◌, if◌then◌else◌, length, replicate,
}
use nido.Base.Decimal.{Text, to_decimal}
use nido.Base.Int.{ℤ, magnitude}
use nido.Base.Texts.{codes}
use nido.Money.{pad_start, strip_zeros, sign_of, stroops_to_xlm, raw_to_decimal}
use nido.Policy.{MultisigRecoveryBlock, ScopedSessionKeyBlock}

abbrev pub stroops_per_xlm : ℕ
stroops_per_xlm = 10000000

unfoldable pub stroops_to_xlm_string : ℤ → Text
stroops_to_xlm_string stroops =
    let abs = magnitude stroops in
    let whole = abs / stroops_per_xlm in
    let frac = abs % stroops_per_xlm in
    if frac == 0
    then sign_of stroops ++ to_decimal whole
    else sign_of stroops
      ++ (to_decimal whole ++ (b'.' ∷ strip_zeros (pad_start 7 (to_decimal frac))))

unfoldable pub period_label : ℕ → Text
period_label ledgers =
    if ledgers == 17280
    then codes "per day"
    else if ledgers == 120960
    then codes "per week"
    else if ledgers == 518400
    then codes "per 30 days"
    else codes "per " ++ (to_decimal ledgers ++ codes " ledgers")

unfoldable pub format_spending_limit : ℤ → ℕ → Text
format_spending_limit stroops ledgers =
    stroops_to_xlm_string stroops ++ (codes " XLM " ++ period_label ledgers)

unfoldable pub multisig_summary : MultisigRecoveryBlock → Text
multisig_summary block =
    to_decimal block.threshold
    ++ (codes " of "
        ++ (to_decimal (length block.friends)
            ++ (codes " friend"
                ++ ((if length block.friends == 1 then [] else codes "s")
                    ++ codes " can rotate this account's signers and rules"))))

unfoldable pub session_summary : ScopedSessionKeyBlock → Text
session_summary block =
    codes "Session key for "
    ++ (block.target_contract
        ++ ((elim block.valid_until [
          | none ↦ []
          | some ledger ↦ codes " (expires at ledger " ++ (to_decimal ledger ++ codes ")")
        ])
            ++ (elim block.limit_stroops [
              | none ↦ []
              | some (stroops, ledgers) ↦ codes " · limit " ++ format_spending_limit stroops ledgers
            ])))

abbrev pub multisig_default_draft : MultisigRecoveryBlock
multisig_default_draft = record {
  rule_id = none;
  threshold = 2;
  friends = [];
  label = some (codes "Recovery");
}

abbrev pub session_default_draft : ScopedSessionKeyBlock
session_default_draft = record {
  rule_id = none;
  target_contract = [];
  session_pubkey = replicate 65 0;
  credential_id = [];
  valid_until = none;
  label = none;
  limit_stroops = none;
  limit_unreadable = false;
}

-- The SDK's own wording of an amount of stroops, of either sign, is the one of the wallet's
-- `stroopsToXlm`.
pub stroops_to_xlm_string-stroops_to_xlm :
    (stroops : ℤ) → stroops_to_xlm_string stroops ≡ stroops_to_xlm stroops
unfolding stroops_to_xlm_string stroops_to_xlm raw_to_decimal
stroops_to_xlm_string-stroops_to_xlm stroops = refl
