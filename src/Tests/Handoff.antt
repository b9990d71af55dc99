-- ===== src/Tests/Handoff.antt =====
-- A prepared rotation of one transaction, and a store that holds it.
use nido.Base.{[], ◌∷◌, Option, none, some, ok, ◌≡◌, refl, All, sym, ap, ◌∙◌}
use nido.Base.Decimal.{Text}
use nido.Base.Texts.{codes}
use nido.Rotation.{RotationRequest, RotationCall, plan_rotation}
use nido.Recovery.{RotationStaging}
use nido.Recovery.Rules.{
  enrich_rotation_request, is_enriched, AuthEntry, address_credentials, invoke_contract,
}
use nido.Recovery.Signing.{
  Codec, Assembled, PrepareArgs, prepare_rotation, stage_rotation, plan_or_throw, stage_txs,
  stage_tx, stored_as, root_entry, first_entry, parent_digest, RefractorTx, handoff_of,
}
use nido.Recovery.Signing.Agreement.{Agrees, prepare_rotation-Agrees}

abbrev toy_entry : AuthEntry
toy_entry = record {
  credentials = address_credentials (codes "A") (codes "3");
  root_invocation = codes "call";
}

abbrev toy_codec : Codec
toy_codec = record {
  operations_of = λ xdr. record { body = invoke_contract (codes "A"); auth = toy_entry ∷ [] } ∷ [];
  auth_hash_at = λ auth expiration. expiration ∷ [];
  auth_digest = λ payload rules. payload;
}

abbrev toy_simulate : RotationCall → Option Assembled
toy_simulate call = some (record { latest_ledger = 5; tx_xdr = codes "X1" })

abbrev toy_args : PrepareArgs
toy_args = record {
  account = codes "A";
  recovery_rule_id = 1;
  friends = codes "F1" ∷ [];
  threshold = 1;
  description = codes "rotate";
  relay_key = codes "K";
}

-- A request that is complete, and that removes a key.
abbrev removal : RotationRequest
removal = record {
  default_rule_id = 0;
  add_passkey = none;
  remove_signer_id = some 2;
  rule_state = some (record { signer_count = 2; policy_count = 0 });
  threshold_policy_address = some (codes "P");
}

-- The hash that the toy store gives is the envelope itself.
abbrev toy_store : Text → Option Text
toy_store xdr = some xdr

abbrev toy_fetch : Text → Option RefractorTx
toy_fetch hash = some (record { network = codes "testnet"; xdr = hash })

abbrev toy_staging : RotationStaging
toy_staging = record {
  account = codes "A";
  recovery_rule_id = 1;
  threshold = 1;
  friends = codes "F1" ∷ [];
  txs =
      record {
        tx_xdr = codes "X1";
        refractor_tx_hash = codes "X1";
        refractor_tx_url = codes "X1";
        parent_auth_digest_hex = 10005 ∷ [];
        relayer_tx_id = none;
        submitted_hash = none;
      }
      ∷ [];
  last_ledger = 5;
  parent_signature_expiration_ledger = 10005;
  description = codes "rotate";
  relay_key = codes "K";
  collected = [];
}

toy_prepared :
    prepare_rotation toy_codec toy_simulate toy_store
      (λ hash. hash)
      toy_args
      (ok [])
      (ok [])
      removal
    ≡ ok toy_staging
unfolding prepare_rotation plan_or_throw plan_rotation enrich_rotation_request is_enriched
    stage_rotation stage_txs stage_tx stored_as root_entry first_entry parent_digest
toy_prepared = refl

toy_faithful :
    (xdr hash : Text) (tx : RefractorTx)
    → toy_store xdr ≡ some hash
    → toy_fetch hash ≡ some tx
    → tx.xdr ≡ xdr
toy_faithful xdr hash tx e f =
    let same : xdr ≡ hash = cc in
    let read : record { network = codes "testnet"; xdr = hash } ≡ tx = cc in
    sym (ap {B = Text} (λ t. t.xdr) read) ∙ sym same

prepare_rotation-Agrees_example :
    All (Agrees toy_codec toy_fetch (handoff_of toy_staging (codes "url"))) toy_staging.txs
prepare_rotation-Agrees_example =
    prepare_rotation-Agrees toy_codec toy_simulate toy_store (λ hash. hash) toy_fetch toy_faithful
      toy_args (ok []) (ok []) removal toy_staging (codes "url") toy_prepared
