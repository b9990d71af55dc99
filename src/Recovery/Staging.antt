-- ===== src/Recovery/Staging.antt =====
-- The staging of packages/frontend/src/lib/recoveryActions.ts in `localStorage`: what is written as
-- JSON and what is read back, older shapes included. The parsed JSON is data; `JSON.parse` that
-- throws is a missing value here, as both give `null`.
pub mod RoundTrip
use nido.Base.{ℕ, ◌%◌, List, [], ◌∷◌, Option, none, some, ◌≡◌, refl, map, All, arith}
use nido.Base.Decimal.{Text}
use nido.Base.Dict.{Dict, values}
use nido.ZkRecovery.Field.{Bytes, IsBytes}
use nido.Recovery.{FriendEntry, FriendSignature, StagedRotationTx, RotationStaging}

infixl 5 ◌>>=◌
abbrev ◌>>=◌ {here there} :
    {A : Type here} {B : Type there} (value : Option A) (next : A → Option B) → Option B
◌>>=◌ none next = none
◌>>=◌ (some a) next = next a

pub record StoredEntry : Type 0 where
  pub authenticator_data : List ℕ
  pub client_data_json : List ℕ
  pub signature : List ℕ
  pub nonce : Text
  pub signature_expiration_ledger : ℕ

-- One flat entry stands for the list in what an older version wrote.
pub record StoredFriendSig : Type 0 where
  pub friend_account : Text
  pub verifier_address : Text
  pub public_key : List ℕ
  pub entries : Option (List StoredEntry)
  pub authenticator_data : Option (List ℕ)
  pub client_data_json : Option (List ℕ)
  pub signature : Option (List ℕ)
  pub nonce : Option Text
  pub signature_expiration_ledger : Option ℕ

pub record StoredTx : Type 0 where
  pub tx_xdr : Option Text
  pub refractor_tx_hash : Option Text
  pub refractor_tx_url : Option Text
  pub parent_auth_digest_hex : Option Text
  pub relayer_tx_id : Option Text
  pub submitted_hash : Option Text

pub record StoredStaging : Type 0 where
  pub account : Text
  pub recovery_rule_id : ℕ
  pub threshold : ℕ
  pub friends : List Text
  pub txs : Option (List StoredTx)
  pub last_ledger : ℕ
  pub parent_signature_expiration_ledger : ℕ
  pub description : Text
  pub relay_key : Text
  pub collected : Option (Dict StoredFriendSig)

-- `new Uint8Array(numbers)`.
unfoldable pub to_bytes : List ℕ → Bytes
to_bytes [] = []
to_bytes (n ∷ ns) = n % 256 ∷ to_bytes ns

unfoldable pub serialize_entry : FriendEntry → StoredEntry
serialize_entry e = record {
  authenticator_data = e.authenticator_data;
  client_data_json = e.client_data_json;
  signature = e.signature;
  nonce = e.nonce;
  signature_expiration_ledger = e.signature_expiration_ledger;
}

unfoldable pub serialize_friend_sig : FriendSignature → StoredFriendSig
serialize_friend_sig s = record {
  friend_account = s.friend_account;
  verifier_address = s.verifier_address;
  public_key = s.public_key;
  entries = some (map serialize_entry s.entries);
  authenticator_data = none;
  client_data_json = none;
  signature = none;
  nonce = none;
  signature_expiration_ledger = none;
}

abbrev pub default_to {ℓ} : {A : Type ℓ} → A → Option A → A
default_to d none = d
default_to d (some a) = a

unfoldable pub stored_entries : StoredFriendSig → List StoredEntry
stored_entries o = elim o.entries [
  | some entries ↦ entries
  | none ↦
      record {
        authenticator_data = default_to [] o.authenticator_data;
        client_data_json = default_to [] o.client_data_json;
        signature = default_to [] o.signature;
        nonce = default_to (b'0' ∷ []) o.nonce;
        signature_expiration_ledger = default_to 0 o.signature_expiration_ledger;
      }
      ∷ []
]

unfoldable pub deserialize_entry : StoredEntry → FriendEntry
deserialize_entry e = record {
  authenticator_data = to_bytes e.authenticator_data;
  client_data_json = to_bytes e.client_data_json;
  signature = to_bytes e.signature;
  nonce = e.nonce;
  signature_expiration_ledger = e.signature_expiration_ledger;
}

unfoldable pub deserialize_friend_sig : StoredFriendSig → FriendSignature
deserialize_friend_sig o = record {
  friend_account = o.friend_account;
  verifier_address = o.verifier_address;
  public_key = to_bytes o.public_key;
  entries = map deserialize_entry (stored_entries o);
}

unfoldable pub map_values {ℓ κ} : {A : Type ℓ} {B : Type κ} → (A → B) → Dict A → Dict B
map_values f [] = []
map_values f ((k, v) ∷ d) = (k, f v) ∷ map_values f d

unfoldable pub stored_tx : StagedRotationTx → StoredTx
stored_tx t = record {
  tx_xdr = some t.tx_xdr;
  refractor_tx_hash = some t.refractor_tx_hash;
  refractor_tx_url = some t.refractor_tx_url;
  parent_auth_digest_hex = some t.parent_auth_digest_hex;
  relayer_tx_id = t.relayer_tx_id;
  submitted_hash = t.submitted_hash;
}

-- The check that the four fields of a transaction are strings.
unfoldable pub loaded_tx : StoredTx → Option StagedRotationTx
loaded_tx t = do
  tx_xdr ← t.tx_xdr
  digest ← t.parent_auth_digest_hex
  hash ← t.refractor_tx_hash
  url ← t.refractor_tx_url
  some (record {
    tx_xdr = tx_xdr;
    refractor_tx_hash = hash;
    refractor_tx_url = url;
    parent_auth_digest_hex = digest;
    relayer_tx_id = t.relayer_tx_id;
    submitted_hash = t.submitted_hash;
  })

unfoldable pub loaded_txs : List StoredTx → Option (List StagedRotationTx)
loaded_txs [] = some []
loaded_txs (t ∷ ts) = do tx ← loaded_tx t; rest ← loaded_txs ts; some (tx ∷ rest)

unfoldable pub save_staging : RotationStaging → StoredStaging
save_staging staging = record {
  account = staging.account;
  recovery_rule_id = staging.recovery_rule_id;
  threshold = staging.threshold;
  friends = staging.friends;
  txs = some (map stored_tx staging.txs);
  last_ledger = staging.last_ledger;
  parent_signature_expiration_ledger = staging.parent_signature_expiration_ledger;
  description = staging.description;
  relay_key = staging.relay_key;
  collected = some (map_values serialize_friend_sig staging.collected);
}

-- `raw` is the value under the staging's key, parsed.
unfoldable pub load_staging : (raw : Option StoredStaging) → Option RotationStaging
load_staging raw = do
  o ← raw
  stored ← o.txs
  txs ← loaded_txs stored
  some (record {
    account = o.account;
    recovery_rule_id = o.recovery_rule_id;
    threshold = o.threshold;
    friends = o.friends;
    txs = txs;
    last_ledger = o.last_ledger;
    parent_signature_expiration_ledger = o.parent_signature_expiration_ledger;
    description = o.description;
    relay_key = o.relay_key;
    collected = map_values deserialize_friend_sig (default_to [] o.collected);
  })
