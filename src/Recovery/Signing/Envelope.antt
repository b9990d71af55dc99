-- ===== src/Recovery/Signing/Envelope.antt =====
-- The root entry of an envelope that a friend accepts (`validateRecoveryTxEnvelope` of
-- packages/frontend/src/lib/recoveryActions.ts) is the one that the originator reads.
use nido.Base.{List, [], ◌∷◌, ok, err, ◌≡◌, ap, inl, inr, Bool-cases}
use nido.Base.Decimal.{Text}
use nido.Base.Texts.{same_text}
use nido.Recovery.Rules.{
  AuthEntry, EnvelopeOperation, Credentials, source_account, address_credentials, OperationBody,
  other_operation, other_host_function, invoke_contract, other_account, other_auth_account,
  validate_root_auth, validate_body, validate_credentials, validate_recovery_tx_envelope,
}
use nido.Recovery.Signing.{root_entry, first_entry}

validate_credentials-ok :
    (account : Text) (first : AuthEntry) (credentials : Credentials) (entry : AuthEntry)
    → validate_credentials account first credentials ≡ ok entry
    → first ≡ entry
unfolding validate_credentials
validate_credentials-ok account first source_account entry h = cc
validate_credentials-ok account first (address_credentials address nonce) entry h =
    elim (Bool-cases (same_text address account)) [
      | inl same ↦ let h' : ok first ≡ ok entry = rw (validate_credentials, same) at h in cc
      | inr other ↦ absurd (
          let clash : err other_auth_account ≡ ok entry = rw (validate_credentials, other) at h in
          cc)
    ]

validate_root_auth-first :
    (account : Text) (auth : List AuthEntry) (entry : AuthEntry)
    → validate_root_auth account auth ≡ ok entry
    → first_entry auth ≡ ok entry
unfolding validate_root_auth first_entry
validate_root_auth-first account [] entry h = cc
validate_root_auth-first account (first ∷ auth) entry h =
    ap ok (validate_credentials-ok account first first.credentials entry h)

validate_body-first :
    (account : Text) (auth : List AuthEntry) (body : OperationBody) (entry : AuthEntry)
    → validate_body account auth body ≡ ok entry
    → first_entry auth ≡ ok entry
unfolding validate_body
validate_body-first account auth other_operation entry h = cc
validate_body-first account auth other_host_function entry h = cc
validate_body-first account auth (invoke_contract target) entry h =
    elim (Bool-cases (same_text target account)) [
      | inl same ↦ validate_root_auth-first account auth entry (rw (validate_body, same) at h)
      | inr other ↦
          absurd (let clash : err other_account ≡ ok entry = rw (validate_body, other) at h in cc)
    ]

-- An envelope that a friend accepts has its root entry where the originator reads it.
pub validate-root_entry :
    (operations : List EnvelopeOperation) (account : Text) (entry : AuthEntry)
    → validate_recovery_tx_envelope operations account ≡ ok entry
    → root_entry operations ≡ ok entry
unfolding validate_recovery_tx_envelope root_entry
validate-root_entry [] account entry h = cc
validate-root_entry (o ∷ o' ∷ operations) account entry h = cc
validate-root_entry (operation ∷ []) account entry h =
    validate_body-first account operation.auth operation.body entry h
