-- ===== src/Signing/Owner/Agreement.antt =====
-- primaryPasskeySigner.ts: the passkey signs what the transaction says.
use nido.Base.{
  ℕ, ◌+◌, ◌≡◌, refl, sym, ◌∙◌, List, [], ◌∷◌, Option, some, Result, ok, err, >>=-ok, Result-cases,
  inl, inr, arith,
}
use nido.Base.Decimal.{Text}
use nido.ZkRecovery.Field.{Bytes}
use nido.Policy.Rules.Resolve.{SignerRule, resolve_signer_rule}
use nido.Signing.Pairs.{hex_pairs}
use nido.Signing.Der.{der_to_compact}
use nido.Signing.Entry.{
  EntryError, bad_signature, PasskeySignature, external, AuthPayload, AuthEntry, Encoding,
  build_auth_hash_at, build_auth_hash, compute_auth_digest, build_auth_payload, signed_entry,
  inject_signed_auth_payload, inject_passkey_signature, get_auth_entry, parse_assertion_response,
}
use nido.Signing.Submit.{SubmitError, Network, source_account, simulated_entries}
use nido.Signing.Owner.{
  Credential, Assertion, Device, entry_result, credential_of, rule_of, assertion_of, Signed,
  expiration_offset, challenge_of, given_verifier, sign_entries, sign_call,
}

-- The response's bytes with the compact signature.
abbrev pub parsed_of : Bytes → Bytes → Bytes → PasskeySignature
parsed_of authenticator_data client_data_json compact = record {
  authenticator_data = authenticator_data;
  client_data_json = client_data_json;
  signature = compact;
}

entry_result-eq-ok :
    {A : Type 0} (call : Result EntryError A) (x : A) → entry_result call ≡ ok x → call ≡ ok x
entry_result-eq-ok (ok y) x e = cc
entry_result-eq-ok (err d) x e = cc

module _ {Call : Type 0} (encoding : Encoding) (network_passphrase : Text) (network : Network Call)
    (device : Device) where
  -- The digest that the account computes from an entry of a transaction, under the rules that its
  -- payload names.
  abbrev pub checked_digest : AuthEntry → AuthPayload → Bytes
  checked_digest entry payload =
      compute_auth_digest encoding
        (build_auth_hash_at encoding entry network_passphrase entry.signature_expiration_ledger)
        payload.context_rule_ids

  -- What the first entry of a handed transaction says: one signature of this device's passkey over the
  -- digest that the account will compute, under the rule that carries the passkey.
  pub record IsSigned (account : Text) (call : Call) (s : Signed Call) : Type 0 where
    pub entry : AuthEntry
    pub others : List AuthEntry
    pub payload : AuthPayload
    pub cred : Credential
    pub resolved : SignerRule
    pub assertion : Assertion
    pub compact : Bytes
    pub verifier : Text
    pub same_call : s.transaction.call ≡ call
    pub entries : s.transaction.auth ≡ entry ∷ others
    pub carried : entry.signature ≡ some payload
    pub digest : checked_digest entry payload ≡ s.challenge
    pub credential : device.credential account ≡ some cred
    pub rule :
        resolve_signer_rule (device.view account) cred.public_key (device.count account)
        ≡ ok (some resolved)
    pub rule_ids : payload.context_rule_ids ≡ resolved.rule_id ∷ []
    pub ceremony : device.authenticator cred.credential_id s.challenge ≡ some assertion
    pub low : der_to_compact assertion.signature ≡ ok compact
    pub signers :
        payload.signers
        ≡ encoding.sorted (
            external verifier
              (hex_pairs cred.public_key)
              (parsed_of assertion.authenticator_data assertion.client_data_json compact)
            ∷ [])

  credential_of-eq-ok :
      (account : Text) (cred : Credential)
      → credential_of device account ≡ ok cred
      → device.credential account ≡ some cred
  unfolding credential_of
  credential_of-eq-ok account cred e = ground arith

  rule_of-eq-ok :
      (account : Text) (cred : Credential) (resolved : SignerRule)
      → rule_of device account cred ≡ ok resolved
      → resolve_signer_rule (device.view account) cred.public_key (device.count account)
        ≡ ok (some resolved)
  unfolding rule_of
  rule_of-eq-ok account cred resolved e = ground arith

  assertion_of-eq-ok :
      (cred : Credential) (challenge : Bytes) (assertion : Assertion)
      → assertion_of device cred challenge ≡ ok assertion
      → device.authenticator cred.credential_id challenge ≡ some assertion
  unfolding assertion_of
  assertion_of-eq-ok cred challenge assertion e = ground arith

  parse_assertion_response-eq-ok :
      (data' client der : Bytes) (parsed : PasskeySignature)
      → parse_assertion_response data' client der ≡ ok parsed
      → (compact : Bytes) × (der_to_compact der ≡ ok compact)
        × (parsed ≡ parsed_of data' client compact)
  unfolding parse_assertion_response
  parse_assertion_response-eq-ok data' client der parsed e =
      elim (Result-cases (der_to_compact der)) [
        | inl (compact, done) ↦
            let shown : ok (parsed_of data' client compact) ≡ ok parsed =
              rw (parse_assertion_response, done) at e in
            let same : parsed_of data' client compact ≡ parsed = cc in (compact, done, sym same)
        | inr (why, stop) ↦
            let clash : err (bad_signature why) ≡ ok parsed =
              rw (parse_assertion_response, stop) at e in
            absurd (cc)
      ]

  get_auth_entry-eq-ok :
      (auth : List AuthEntry) (entry : AuthEntry)
      → get_auth_entry auth ≡ ok entry
      → (others : List AuthEntry) × (auth ≡ entry ∷ others)
  unfolding get_auth_entry
  get_auth_entry-eq-ok [] entry e = cc
  get_auth_entry-eq-ok (x ∷ auth) entry e = let same : x ≡ entry = cc in (auth, rw same refl)

  inject_passkey_signature-eq-ok :
      (auth : List AuthEntry) (entry : AuthEntry) (others signed : List AuthEntry)
      (parsed : PasskeySignature) (verifier : Text) (key : Bytes) (last offset : ℕ) (ids : List ℕ)
      → auth ≡ entry ∷ others
      → inject_passkey_signature encoding auth parsed verifier key last offset ids ≡ ok signed
      → signed
        ≡ signed_entry entry (last + offset) (record {
          context_rule_ids = ids;
          signers = encoding.sorted (external verifier key parsed ∷ []);
        })
          ∷ others
  unfolding inject_passkey_signature inject_signed_auth_payload build_auth_payload
  inject_passkey_signature-eq-ok [] entry others signed parsed verifier key last offset ids listed
        e =
      cc
  inject_passkey_signature-eq-ok (x ∷ auth) entry others signed parsed verifier key last offset ids
        listed e =
      cc

  -- The parts of a signed transaction, put together.
  parts-IsSigned :
      (account verifier : Text) (call : Call) (s : Signed Call) (cred : Credential)
      (resolved : SignerRule) (entry : AuthEntry) (others : List AuthEntry) (assertion : Assertion)
      (parsed : PasskeySignature) (compact : Bytes) (last : ℕ)
      → device.credential account ≡ some cred
      → resolve_signer_rule (device.view account) cred.public_key (device.count account)
        ≡ ok (some resolved)
      → assertion_of device cred
          (challenge_of encoding network_passphrase network device entry last resolved.rule_id)
        ≡ ok assertion
      → der_to_compact assertion.signature ≡ ok compact
      → parsed ≡ parsed_of assertion.authenticator_data assertion.client_data_json compact
      → s ≡ record {
        transaction = record {
          call = call;
          auth =
              signed_entry entry
                (last + expiration_offset encoding network_passphrase network device)
                (record {
                  context_rule_ids = resolved.rule_id ∷ [];
                  signers =
                      encoding.sorted (external verifier (hex_pairs cred.public_key) parsed ∷ []);
                })
              ∷ others;
        };
        challenge =
            challenge_of encoding network_passphrase network device entry last resolved.rule_id;
      }
      → IsSigned account call s
  unfolding challenge_of build_auth_hash build_auth_hash_at
  parts-IsSigned account verifier call s cred resolved entry others assertion parsed compact last c
        r a d p same =
      rw (same, p)
        (record {
          entry = _;
          others = others;
          payload = _;
          cred = cred;
          resolved = resolved;
          assertion = assertion;
          compact = compact;
          verifier = verifier;
          same_call = refl;
          entries = refl;
          carried = refl;
          digest = refl;
          credential = c;
          rule = r;
          rule_ids = refl;
          ceremony = assertion_of-eq-ok cred _ assertion a;
          low = d;
          signers = refl;
        })

  abbrev signed_as : Call → List AuthEntry → Bytes → Signed Call
  signed_as call auth challenge = record {
    transaction = record { call = call; auth = auth };
    challenge = challenge;
  }

  returned : Signed Call → Result SubmitError (Signed Call)
  returned s = ok s

  signed_same :
      (call : Call) (signed listed : List AuthEntry) (challenge : Bytes) (s : Signed Call)
      → signed ≡ listed
      → returned (signed_as call signed challenge) ≡ returned s
      → s ≡ signed_as call listed challenge
  unfolding returned
  signed_same call signed listed challenge s same e =
      let shown : signed_as call signed challenge ≡ s = cc in rw (← same) (sym shown)

  sign_entries-IsSigned :
      (account verifier : Text) (call : Call) (s : Signed Call) (auth : List AuthEntry) (last : ℕ)
      (cred : Credential) (resolved : SignerRule)
      → ((auth : List AuthEntry) → network.assemble call auth ≡ auth)
      → device.credential account ≡ some cred
      → resolve_signer_rule (device.view account) cred.public_key (device.count account)
        ≡ ok (some resolved)
      → sign_entries encoding network_passphrase network device cred resolved verifier call auth
          last
        ≡ ok s
      → IsSigned account call s
  unfolding sign_entries returned
  sign_entries-IsSigned account verifier call s auth last cred resolved keeps c r e =
      let (entry, entry_ok, e1) = >>=-ok (entry_result (get_auth_entry auth)) _ e in
      let (others, listed) =
        get_auth_entry-eq-ok auth entry (entry_result-eq-ok (get_auth_entry auth) entry entry_ok) in
      let (assertion, assertion_ok, e2) = >>=-ok (assertion_of device cred _) _ e1 in
      let (parsed, parsed_ok, e3) = >>=-ok (entry_result (parse_assertion_response _ _ _)) _ e2 in
      let (compact, low, same_parsed) =
        parse_assertion_response-eq-ok _ _ _ parsed (entry_result-eq-ok _ parsed parsed_ok) in
      let (signed, signed_ok, e4) =
        >>=-ok (entry_result (inject_passkey_signature encoding _ _ _ _ _ _ _)) _ e3 in
      let injected =
        inject_passkey_signature-eq-ok (network.assemble call auth) entry others signed parsed
          verifier (hex_pairs cred.public_key) last
          (expiration_offset encoding network_passphrase network device) (resolved.rule_id ∷ [])
          (keeps auth ∙ listed) (entry_result-eq-ok _ signed signed_ok) in
      parts-IsSigned account verifier call s cred resolved entry others assertion parsed compact
        last c r assertion_ok low same_parsed (signed_same call signed _ _ s injected e4)

  pub sign_call-IsSigned :
      (account : Text) (verifier_address : Option Text) (call : Call) (s : Signed Call)
      → ((auth : List AuthEntry) → network.assemble call auth ≡ auth)
      → sign_call encoding network_passphrase network device account verifier_address call ≡ ok s
      → IsSigned account call s
  unfolding sign_call
  sign_call-IsSigned account verifier_address call s keeps e =
      let (cred, cred_ok, e1) = >>=-ok (credential_of device account) _ e in
      let (resolved, resolved_ok, e2) = >>=-ok (rule_of device account cred) _ e1 in
      let (source, source_ok, e3) = >>=-ok (source_account network) _ e2 in
      let ((auth, (last, retval)), sim_ok, e4) = >>=-ok (simulated_entries network call) _ e3 in
      sign_entries-IsSigned account (given_verifier verifier_address resolved) call s auth last cred
        resolved keeps (credential_of-eq-ok account cred cred_ok)
        (rule_of-eq-ok account cred resolved resolved_ok) e4
