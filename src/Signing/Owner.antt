-- ===== src/Signing/Owner.antt =====
-- packages/frontend/src/lib/primaryPasskeySigner.ts: `signAndSubmit`. The authenticator is a
-- parameter: the bytes of its response to a challenge, or a ceremony that is cancelled.
pub mod Agreement
use nido.Base.{
  ℕ, ◌+◌, List, [], ◌∷◌, Option, none, some, Bool, Result, ok, err, ◌>>=◌, if◌then◌else◌,
}
use nido.Base.Decimal.{Text}
use nido.ZkRecovery.Field.{Bytes}
use nido.Policy.Rules.{View}
use nido.Policy.Rules.Resolve.{SignerRule, resolve_signer_rule}
use nido.Signing.Pairs.{hex_pairs}
use nido.Signing.Entry.{
  EntryError, PasskeySignature, AuthEntry, default_expiration_offset, Encoding, build_auth_hash,
  compute_auth_digest, inject_passkey_signature, get_auth_entry, parse_assertion_response,
}
use nido.Signing.Submit.{
  Transaction, SubmitError, no_credential, no_rule, cancelled, scan_failed, entry_error, Network,
  relayer_enabled, source_account, simulated_entries, hand_over,
}

abbrev pub relayer_expiration_offset : ℕ
relayer_expiration_offset = 120

-- The keypair of the submitter: the stored one, or a new one that friendbot funds and the storage
-- then keeps.
unfoldable pub get_submitter :
    (stored : Option Text) (random : Text) (funded : Bool) → Option Text × Option Text
get_submitter (some secret) random funded = (some secret, some secret)
get_submitter none random funded = if funded then (some random, some random) else (none, none)

pub record Credential : Type 0 where
  pub credential_id : Bytes
  pub public_key : Text

pub record Assertion : Type 0 where
  pub authenticator_data : Bytes
  pub client_data_json : Bytes
  pub signature : Bytes

-- `view` and `count` are the account's rules; `authenticator` answers a credential and a challenge.
pub record Device : Type 0 where
  pub credential : Text → Option Credential
  pub view : Text → ℕ → View
  pub count : Text → ℕ
  pub authenticator : (credential_id challenge : Bytes) → Option Assertion

-- An error of auth.ts, as one of the submission.
abbrev pub entry_result : {A : Type 0} → Result EntryError A → Result SubmitError A
entry_result (ok x) = ok x
entry_result (err e) = err (entry_error e)

unfoldable pub credential_of : Device → Text → Result SubmitError Credential
credential_of device account = elim (device.credential account) [
  | none ↦ err no_credential
  | some cred ↦ ok cred
]

unfoldable pub rule_of : Device → Text → Credential → Result SubmitError SignerRule
rule_of device account cred =
    elim (resolve_signer_rule (device.view account) cred.public_key (device.count account)) [
      | err e ↦ err scan_failed
      | ok none ↦ err no_rule
      | ok (some resolved) ↦ ok resolved
    ]

unfoldable pub assertion_of : Device → Credential → Bytes → Result SubmitError Assertion
assertion_of device cred challenge = elim (device.authenticator cred.credential_id challenge) [
  | none ↦ err cancelled
  | some assertion ↦ ok assertion
]

-- `args.verifierAddress ?? resolved.verifier`.
abbrev pub given_verifier : Option Text → SignerRule → Text
given_verifier none resolved = resolved.verifier
given_verifier (some given) resolved = given

-- What is handed over, with the challenge that the passkey signed.
pub record Signed (Call : Type 0) : Type 0 where
  pub transaction : Transaction Call
  pub challenge : Bytes

module _ {Call : Type 0} (encoding : Encoding) (network_passphrase : Text) (network : Network Call)
    (device : Device) where
  abbrev pub expiration_offset : ℕ
  expiration_offset =
      if relayer_enabled network then relayer_expiration_offset else default_expiration_offset

  -- The rule ids are those of the rule that was resolved.
  unfoldable pub challenge_of : AuthEntry → (last_ledger rule_id : ℕ) → Bytes
  challenge_of entry last_ledger rule_id =
      compute_auth_digest encoding
        (build_auth_hash encoding entry network_passphrase last_ledger expiration_offset)
        (rule_id ∷ [])

  -- From the simulation's entries to the transaction with the signature in it.
  unfoldable pub sign_entries :
      Credential
      → SignerRule
      → (verifier : Text) → Call
      → List AuthEntry
      → (last_ledger : ℕ) → Result SubmitError (Signed Call)
  sign_entries cred resolved verifier call auth last_ledger = do
    entry ← entry_result (get_auth_entry auth)
    let challenge = challenge_of entry last_ledger resolved.rule_id
    assertion ← assertion_of device cred challenge
    parsed ← entry_result (
        parse_assertion_response assertion.authenticator_data assertion.client_data_json
          assertion.signature)
    signed ← entry_result (
        inject_passkey_signature encoding (network.assemble call auth) parsed verifier
          (hex_pairs cred.public_key) last_ledger expiration_offset (resolved.rule_id ∷ []))
    ok (record { transaction = record { call = call; auth = signed }; challenge = challenge })

  unfoldable pub sign_call :
      (account : Text) → Option Text → Call → Result SubmitError (Signed Call)
  sign_call account verifier_address call = do
    cred ← credential_of device account
    resolved ← rule_of device account cred
    source ← source_account network
    (auth, (last_ledger, retval)) ← simulated_entries network call
    sign_entries cred resolved (given_verifier verifier_address resolved) call auth last_ledger

  -- The hash of the transaction, and the digest that was signed.
  unfoldable pub sign_and_submit :
      (account : Text) → Option Text → Call → Result SubmitError (Text × Bytes)
  sign_and_submit account verifier_address call = do
    signed ← sign_call account verifier_address call
    hash ← hand_over network signed.transaction
    ok (hash, signed.challenge)
