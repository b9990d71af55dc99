-- ===== src/Tests/Restoring.antt =====
-- A staged recovery of two transactions, one friend and a relayer that confirms its jobs.
use nido.Base.{[], ◌∷◌, Option, none, some, true, ok, ◌≡◌, ◌⊎◌, refl, All, inr, arith, ◌≤◌}
use nido.Base.Decimal.{Text}
use nido.Base.Dict.{values}
use nido.Base.Texts.{codes}
use nido.Rotation.{RotationRequest, NewPasskeySigner}
use nido.Policy.{ChainRule, default_context}
use nido.Recovery.{FriendEntry, FriendSignature, StagedRotationTx, RotationStaging}
use nido.Recovery.Staging.{load_staging, save_staging}
use nido.Recovery.Staging.RoundTrip.{IsByteSignature, IsByteEntry, load_staging-save_staging}
use nido.Recovery.Submit.{
  Codec, payload_signers, all_addresses, accepted, confirmed, wait_failed, RelayerAnswers, relayer,
  submit_rotation, submit_tx, sign_tx, build_entries, friend_accounts, run_txs, hand_over,
  after_send, after_wait, with_job, submitted, incomplete, build_friend_auth_entry,
}
use nido.Recovery.Submit.Order.{InOrder, HasHashes, submit_rotation-InOrder}
use nido.Recovery.Submit.Marks.{Accountable, sends}
use nido.Recovery.Submit.Once.{reply_arrives, submission_runs, after_events, after_events_once}
use nido.Recovery.Collect.{collect_from_relay}
use nido.Recovery.Collect.Quorum.{IsCollected, Keyed, collect_from_relay-IsCollected}
use nido.Recovery.Rules.{
  enrich_rotation_request, read_enrichment, complete_with, chain_rule_with_id, is_enriched,
}
use nido.Recovery.Rules.Enrich.{IsGiven, IsCompleted, enrich_rotation_request-IsCompleted}

abbrev entry : FriendEntry
entry = record {
  authenticator_data = 1 ∷ [];
  client_data_json = 2 ∷ [];
  signature = 3 ∷ [];
  nonce = codes "8";
  signature_expiration_ledger = 9;
}

abbrev reply : FriendSignature
reply = record {
  friend_account = codes "F1";
  verifier_address = codes "V1";
  public_key = 4 ∷ [];
  entries = entry ∷ entry ∷ [];
}

abbrev staged : Text → StagedRotationTx
staged xdr = record {
  tx_xdr = xdr;
  refractor_tx_hash = xdr;
  refractor_tx_url = xdr;
  parent_auth_digest_hex = xdr;
  relayer_tx_id = none;
  submitted_hash = none;
}

abbrev staging : RotationStaging
staging = record {
  account = codes "A";
  recovery_rule_id = 1;
  threshold = 1;
  friends = codes "F1" ∷ codes "F2" ∷ [];
  txs = staged (codes "X1") ∷ staged (codes "X2") ∷ [];
  last_ledger = 5;
  parent_signature_expiration_ledger = 10005;
  description = codes "rotate";
  relay_key = codes "K";
  collected = (codes "F1", reply) ∷ [];
}

byte_reply : IsByteSignature reply
byte_reply =
    let good : IsByteEntry entry = record {
      authenticator = (omega arith, tt);
      client = (omega arith, tt);
      signed = (omega arith, tt);
    } in
    record { key = (omega arith, tt); all = (good, (good, tt)) }

byte_replies : All IsByteSignature (values staging.collected)
unfolding values
byte_replies = (byte_reply, tt)

load_staging-save_staging_example : load_staging (some (save_staging staging)) ≡ some staging
load_staging-save_staging_example = load_staging-save_staging staging byte_replies

-- Everything is readable.
abbrev codec : Codec
codec = record {
  reads_address = λ address. true;
  reads_nonce = λ nonce. true;
  reads_envelope = λ xdr. true;
}

-- A relayer that takes everything, and whose first wait times out.
abbrev slow : RelayerAnswers
slow = record { send = λ i signed. accepted (some (codes "job")) none; wait = λ i job. wait_failed }

abbrev prompt : RelayerAnswers
prompt = record {
  send = λ i signed. accepted (some (codes "job")) none;
  wait = λ i job. confirmed (some (codes "hash"));
}

abbrev waiting : RotationStaging
waiting = record staging {
  txs =
      record (staged (codes "X1")) { relayer_tx_id = some (codes "job") }
      ∷ staged (codes "X2")
      ∷ [];
}

-- The run stops at the wait, with the job remembered.
interrupted : (submit_rotation codec (relayer slow) (some staging)).stored ≡ some waiting
unfolding submit_rotation submit_tx sign_tx payload_signers all_addresses build_entries
    friend_accounts run_txs hand_over after_send after_wait with_job submitted incomplete
    build_friend_auth_entry values
interrupted = refl

-- The next run does not hand the first transaction over again.
resumed : (submit_rotation codec (relayer prompt) (some waiting)).sent ≡ 1 ∷ []
unfolding submit_rotation submit_tx sign_tx payload_signers all_addresses build_entries
    friend_accounts run_txs hand_over after_send after_wait with_job submitted incomplete
    build_friend_auth_entry values
resumed = refl

untouched : InOrder staging.txs
unfolding InOrder
untouched = inr (record { no_job = refl; no_hash = refl }, tt)

no_classic : HasHashes (relayer slow)
unfolding HasHashes
no_classic = tt

submit_rotation-InOrder_example : InOrder waiting.txs
submit_rotation-InOrder_example =
    submit_rotation-InOrder codec (relayer slow) staging waiting no_classic untouched interrupted

slow_known : Accountable slow
slow_known i signed = record { not_lost = λ same. cc; has_mark = λ id hash e empty none_id. cc }

prompt_known : Accountable prompt
prompt_known i signed = record { not_lost = λ same. cc; has_mark = λ id hash e empty none_id. cc }

abbrev toy_decode : Text → Option FriendSignature
toy_decode blob = some reply

after_events_once_example :
    sends 0
      (after_events codec toy_decode
        (record { stored = some staging; log = [] })
        (submission_runs slow slow_known
          ∷ reply_arrives (codes "blob")
          ∷ submission_runs prompt prompt_known
          ∷ [])).log
    ≤ 1
after_events_once_example =
    after_events_once codec toy_decode (some staging)
      (submission_runs slow slow_known
        ∷ reply_arrives (codes "blob")
        ∷ submission_runs prompt prompt_known
        ∷ [])
      0

none_collected : IsCollected (record staging { collected = [] })
unfolding Keyed values
none_collected = record { replies = tt; keyed = tt }

collect_from_relay-IsCollected_example :
    (after : RotationStaging) × ((collect_from_relay toy_decode []
        ((codes "F1", codes "blob") ∷ [])
        (some (record staging { collected = [] }))
        []).0
      ≡ some after)
    × IsCollected after
collect_from_relay-IsCollected_example =
    collect_from_relay-IsCollected toy_decode [] ((codes "F1", codes "blob") ∷ [])
      (record staging { collected = [] }) [] none_collected

abbrev passkey : NewPasskeySigner
passkey = record { verifier_address = codes "V2"; public_key = 6 ∷ [] }

abbrev request : RotationRequest
request = record {
  default_rule_id = 0;
  add_passkey = some passkey;
  remove_signer_id = none;
  rule_state = none;
  threshold_policy_address = none;
}

abbrev default_rule : ChainRule
default_rule = record {
  rule_id = 0;
  context_type = default_context;
  name = codes "default";
  signers = [];
  policies = [];
  valid_until = none;
}

abbrev completed_request : RotationRequest
completed_request = record request {
  rule_state = some (record { signer_count = 0; policy_count = 0 });
  threshold_policy_address = some (codes "P");
}

completed :
    enrich_rotation_request (ok (default_rule ∷ [])) (ok (codes "P")) request ≡ ok completed_request
unfolding enrich_rotation_request read_enrichment complete_with chain_rule_with_id is_enriched
completed = refl

enrich_rotation_request-IsCompleted_example :
    ((completed_request ≡ request) × IsGiven request)
    ⊎ IsCompleted (ok (default_rule ∷ [])) (ok (codes "P")) request completed_request
enrich_rotation_request-IsCompleted_example =
    enrich_rotation_request-IsCompleted (ok (default_rule ∷ [])) (ok (codes "P")) request
      completed_request passkey refl completed
