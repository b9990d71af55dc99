-- ===== src/Tests/ZkRun.antt =====
-- A world for the actions of ZK recovery: a toy hash in place of Poseidon2, a pool of one leaf, and a
-- network and a passkey that answer.
use nido.Relayer.Wait.{throws, otherwise}
use nido.Base.{
  ℕ, ◌+◌, ◌*◌, ◌%◌, List, [], ◌∷◌, ◌++◌, none, some, if◌then◌else◌, true, false, Result, ok,
  replicate, take,
}
use nido.Base.Decimal.{Text}
use nido.Base.Texts.{codes, same_text}
use nido.ZkRecovery.Field.{Fr, Bytes, field_order, emit_be, bytes_to_big_int_be, dom_bind, dom_leaf}
use nido.ZkRecovery.Poseidon.{hash_pair}
use nido.ZkRecovery.Merkle.{root}
use nido.Policy.Rules.{RawContextRule, default_tag, external_tag, found_rule}
use nido.Signing.Pairs.{hex_pairs}
use nido.Signing.Entry.{AuthEntry, Encoding}
use nido.Signing.Submit.{Network, simulated, pending}
use nido.Signing.Owner.{Device}
use nido.Signing.Der.Compact.{der_of}
use nido.Recovery.Submit.{landed}
use nido.ZkActions.Chain.{PoolEvent}
use nido.ZkActions.Sync.{Reads, ActionError, status}
use nido.ZkActions.Build.{ContractCall}
use nido.ZkActions.Prove.{Toolchain, circuit_sha256}
use nido.ZkActions.Actions.{World}

abbrev pub toy_poseidon : List Fr → Fr
toy_poseidon [] = 11
toy_poseidon (x ∷ xs) = (x + 7 * toy_poseidon xs) % field_order

abbrev pub account : Text
account = codes "CACCOUNT"

abbrev pub controller : Text
controller = codes "CPOOL"

abbrev pub account32 : Bytes
account32 = replicate 32 5

abbrev pub controller32 : Bytes
controller32 = replicate 32 6

abbrev pub secret : Fr
secret = 42

abbrev pub half : ℕ → Fr
half byte = bytes_to_big_int_be (replicate 16 byte)

abbrev pub leaf : Fr
leaf = toy_poseidon (dom_bind ∷ half 5 ∷ half 5 ∷ toy_poseidon (dom_leaf ∷ secret ∷ []) ∷ [])

abbrev pub one_event : PoolEvent
one_event = record { topics = 2; index = 0; leaf = some (emit_be 32 leaf []) }

abbrev pub pool_root : Fr
pool_root = root (hash_pair toy_poseidon) (leaf ∷ [])

abbrev pub decoded : Text → Result ActionError Bytes
decoded name = if same_text name account then ok account32 else ok controller32

abbrev pub reads : Reads
reads = record {
  zk_preview = false;
  sdk_registry = λ name. ok controller;
  indexer_url = [];
  indexer = λ url. status 404;
  get_events =
      λ contract cursor. ok (record { events = one_event ∷ []; cursor = none; latest_ledger = 5 });
  current_root = λ contract. ok (emit_be 32 pool_root []);
  next_nonce = λ contract name. ok 0;
  decode_contract = decoded;
}

abbrev pub tools : Toolchain
tools = record {
  fetch_circuit = λ name. ok (1 ∷ []);
  sha256 = λ bytes. hex_pairs circuit_sha256;
  backend = λ circuit inputs. ok (1 ∷ 2 ∷ 3 ∷ [], 9 ∷ 8 ∷ []);
}

abbrev pub sim_entry : AuthEntry
sim_entry = record {
  address = account;
  nonce = codes "77";
  root_invocation = 1 ∷ 2 ∷ [];
  signature_expiration_ledger = 0;
  signature = none;
}

abbrev pub network : Network ContractCall
network = record {
  relayer_url = [];
  relayer_sim_source = [];
  submitter = some (codes "GSUBMITTER");
  account_exists = λ key. true;
  simulate = λ call. simulated (sim_entry ∷ []) 100 (some 1234);
  assemble = λ call entries. entries;
  relay = λ tx. none;
  relayer_poll = λ id attempt. throws otherwise;
  enforce = λ tx. true;
  send = λ tx. pending (codes "hash");
  get_transaction = λ hash attempt. landed;
}

abbrev pub encoding : Encoding
encoding = record {
  sha256 = λ bytes. take 32 (bytes ++ replicate 32 0);
  utf8 = λ text. text;
  preimage_xdr = λ id nonce expiration invocation. expiration ∷ id ++ invocation;
  rule_ids_xdr = λ ids. ids;
  sorted = λ signers. signers;
}

abbrev pub rule : RawContextRule
rule = record {
  id = 3;
  context_type = default_tag;
  name = [];
  signers = external_tag (codes "CVERIFIER") (0xab ∷ []) ∷ [];
  signer_ids = 0 ∷ [];
  policies = [];
  valid_until = none;
}

abbrev pub device : Device
device = record {
  credential = λ name. some (record { credential_id = 1 ∷ []; public_key = codes "ab" });
  view = λ name id. found_rule rule;
  count = λ name. 1;
  authenticator = λ id challenge. some (record {
    authenticator_data = 5 ∷ [];
    client_data_json = challenge;
    signature = der_of 8 (1 ∷ []) (2 ∷ []) [];
  });
}

abbrev pub world : World
world = record {
  poseidon2_hash = toy_poseidon;
  sha256 = λ bytes. replicate 32 7;
  utf8 = λ text. text;
  network_passphrase = codes "Test";
  reads = reads;
  tools = tools;
  network = network;
  encoding = encoding;
  device = device;
  stringify = λ staged. staged.initiated_at ∷ staged.executable_after ∷ staged.new_pubkey65_hex;
  now = 1000;
}

abbrev pub key : Bytes
key = 4 ∷ replicate 64 1
