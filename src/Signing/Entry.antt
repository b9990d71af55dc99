-- ===== src/Signing/Entry.antt =====
-- packages/passkey-sdk/src/auth.ts and the shape of multiSigner.ts: the authorization entry, the
-- digest that a passkey signs, and the entry with the signature in it. The parameters are the XDR
-- encodings and `sha256`.
use nido.Base.{
  ℕ, ◌+◌, List, [], ◌∷◌, ◌++◌, Option, some, Result, ok, err, ◌>>=◌, ◌==◌, if◌then◌else◌, length,
}
use nido.Base.Decimal.{Text}
use nido.ZkRecovery.Field.{Bytes}
use nido.Signing.Der.{DerError, der_to_compact}

pub data EntryError : Type 0 where
  no_entry no_signer : EntryError
  bad_signature : DerError → EntryError

pub record PasskeySignature : Type 0 where
  pub authenticator_data : Bytes
  pub client_data_json : Bytes
  pub signature : Bytes

pub data SignerSignature : Type 0 where
  external : (verifier_address : Text) (public_key : Bytes) → PasskeySignature → SignerSignature
  delegated : (address : Text) (sig_data : Bytes) → SignerSignature

pub record AuthPayload : Type 0 where
  pub context_rule_ids : List ℕ
  pub signers : List SignerSignature

-- An entry with address credentials; `none` is the void signature of a simulation.
pub record AuthEntry : Type 0 where
  pub address : Text
  pub nonce : Text
  pub root_invocation : Bytes
  pub signature_expiration_ledger : ℕ
  pub signature : Option AuthPayload

abbrev pub default_expiration_offset : ℕ
default_expiration_offset = 10000

-- `HashIdPreimage` of the network id, the nonce, the expiration and the invocation in XDR, the XDR of
-- the rule ids, the text encoder, and the sort of the signers by the XDR of their keys.
pub record Encoding : Type 0 where
  pub sha256 : Bytes → Bytes
  pub utf8 : Text → Bytes
  pub preimage_xdr : Bytes → Text → ℕ → Bytes → Bytes
  pub rule_ids_xdr : List ℕ → Bytes
  pub sorted : List SignerSignature → List SignerSignature

abbrev pub signed_entry : AuthEntry → ℕ → AuthPayload → AuthEntry
signed_entry original expiration payload = record original {
  signature_expiration_ledger = expiration;
  signature = some payload;
}

module _ (encoding : Encoding) where
  unfoldable pub build_auth_hash_at : AuthEntry → (network_passphrase : Text) → ℕ → Bytes
  build_auth_hash_at entry network_passphrase expiration = encoding.sha256 (
      encoding.preimage_xdr (encoding.sha256 (encoding.utf8 network_passphrase)) entry.nonce
        expiration entry.root_invocation)

  unfoldable pub build_auth_hash :
      AuthEntry → (network_passphrase : Text) → (last_ledger offset : ℕ) → Bytes
  build_auth_hash entry network_passphrase last_ledger offset =
      build_auth_hash_at entry network_passphrase (last_ledger + offset)

  unfoldable pub compute_auth_digest : Bytes → List ℕ → Bytes
  compute_auth_digest signature_payload context_rule_ids =
      encoding.sha256 (signature_payload ++ encoding.rule_ids_xdr context_rule_ids)

  unfoldable pub build_auth_payload : List ℕ → List SignerSignature → Result EntryError AuthPayload
  build_auth_payload context_rule_ids signers =
      if length signers == 0
      then err no_signer
      else ok (record { context_rule_ids = context_rule_ids; signers = encoding.sorted signers })

  -- The entries of the transaction's operation after the call.
  unfoldable pub inject_signed_auth_payload :
      List AuthEntry
      → List SignerSignature
      → (last_ledger offset : ℕ) → List ℕ
      → Result EntryError (List AuthEntry)
  inject_signed_auth_payload [] signers last_ledger offset context_rule_ids = err no_entry
  inject_signed_auth_payload (original ∷ auth) signers last_ledger offset context_rule_ids =
      build_auth_payload context_rule_ids signers >>= λ payload.
      ok (signed_entry original (last_ledger + offset) payload ∷ auth)

  unfoldable pub inject_passkey_signature :
      List AuthEntry
      → PasskeySignature
      → (verifier_address : Text) → (public_key : Bytes) → (last_ledger offset : ℕ) → List ℕ
      → Result EntryError (List AuthEntry)
  inject_passkey_signature auth signature verifier_address public_key last_ledger offset ids =
      inject_signed_auth_payload auth (external verifier_address public_key signature ∷ [])
        last_ledger offset ids

unfoldable pub get_auth_entry : List AuthEntry → Result EntryError AuthEntry
get_auth_entry [] = err no_entry
get_auth_entry (entry ∷ auth) = ok entry

-- The response of the authenticator, its signature in DER.
unfoldable pub parse_assertion_response :
    (authenticator_data client_data_json der : Bytes) → Result EntryError PasskeySignature
parse_assertion_response authenticator_data client_data_json der = elim (der_to_compact der) [
  | err e ↦ err (bad_signature e)
  | ok signature ↦ ok (record {
    authenticator_data = authenticator_data;
    client_data_json = client_data_json;
    signature = signature;
  })
]
