-- ===== src/ZkActions/Sync.antt =====
-- zkRecoveryActions.ts: the sync of the pool, and the reads of the chain that the actions make. What
-- the indexer, the node and the registry answer is a record of parameters, one answer for each
-- question during one action; policyChainFetch.ts: `fetchRegistryAddress` and its preview pair.
pub mod Opens
use nido.Base.{
  ℕ, suc, ◌+◌, ◌*◌, List, [], ◌∷◌, Option, none, some, Bool, true, false, ◌&&◌, ◌||◌, not, Result,
  ok, err, ◌>>=◌, ◌==◌, if◌then◌else◌, length,
}
use nido.Base.Decimal.{Text}
use nido.Base.Hex.{is_hex}
use nido.Base.Texts.{codes, same_text}
use nido.ZkRecovery.Field.{Fr, Bytes, FieldError, bytes_to_field_canonical}
use nido.ZkRecovery.PoolSync.{
  Leaf, SyncError, merge_leaves, verify_against_on_chain_root, Located, locate_leaf,
}
use nido.ZkRecovery.AuthHash.{AuthError}
use nido.Signing.Pairs.{hex_pairs}
use nido.ZkActions.Chain.{Cursor, Page, ChainError, fetch_leaves_from_chain}
use nido.ZkActions.Blob.{BlobError}
use nido.ZkActions.Build.{BuildError}
use nido.ZkActions.Prove.{ProverError}
use nido.Signing.Submit.{SubmitError}

pub data ActionError : Type 0 where
  registry_failed view_failed bad_address bad_hex leaf_not_found root_mismatch : ActionError
  indexer_failed : (status : ℕ) → ActionError
  chain : ChainError → ActionError
  sync : SyncError → ActionError
  field : FieldError → ActionError
  auth : AuthError → ActionError
  blob : BlobError → ActionError
  build : BuildError → ActionError
  prover : ProverError → ActionError
  bad_key_length : ℕ → ActionError
  submit : SubmitError → ActionError

-- An error of a called module, as one of the action.
abbrev pub lift : {E A : Type 0} → (E → ActionError) → Result E A → Result ActionError A
lift tag (ok x) = ok x
lift tag (err e) = err (tag e)

pub data IndexerAnswer : Type 0 where
  status : ℕ → IndexerAnswer
  leaves : List (ℕ × Text) → IndexerAnswer

pub record Reads : Type 0 where
  pub zk_preview : Bool
  pub sdk_registry : Text → Result ActionError Text
  pub indexer_url : Text
  pub indexer : Text → IndexerAnswer
  pub get_events : Text → Option Cursor → Result ChainError Page
  pub current_root : Text → Result ActionError Bytes
  pub next_nonce : Text → Text → Result ActionError ℕ
  pub decode_contract : Text → Result ActionError Bytes

unfoldable pub zk_preview_address : Text → Option Text
zk_preview_address name =
    if same_text name (codes "factory")
    then some (codes "CA2NQS3V6XCNA4FZDPQ4JLSQ65CRWMHHLYQEZ5YQ7MYQX2G5USZ4GWBL")
    else if same_text name (codes "zk-recovery")
    then some (codes "CDXT3DCXYFNZNKBST7VZMN5RJWH24HQXO3WLENQEP7YMPAEZJTQNMEKS")
    else none

unfoldable pub fetch_registry_address : Reads → Text → Result ActionError Text
fetch_registry_address reads name =
    if reads.zk_preview
    then elim (zk_preview_address name) [
      | some address ↦ ok address
      | none ↦ reads.sdk_registry name
    ]
    else reads.sdk_registry name

-- `hex.slice(2)` behind `0x` or `0X`.
unfoldable pub without_0x : Text → Text
without_0x [] = []
without_0x (c ∷ []) = c ∷ []
without_0x (c ∷ d ∷ s) = if c == b'0' && (d == b'x' || d == b'X') then s else c ∷ d ∷ s

-- The regular expression without its length.
unfoldable pub all_hex_digits : Text → Bool
all_hex_digits [] = true
all_hex_digits (c ∷ s) = is_hex c && all_hex_digits s

unfoldable pub hex_to_bytes32 : Text → Result ActionError Bytes
hex_to_bytes32 hex =
    if not (length (without_0x hex) == 64 && all_hex_digits (without_0x hex))
    then err bad_hex
    else ok (hex_pairs (without_0x hex))

unfoldable pub indexer_leaves : List (ℕ × Text) → Result ActionError (List Leaf)
indexer_leaves [] = ok []
indexer_leaves ((index, hex) ∷ body) = hex_to_bytes32 hex >>= λ leaf.
    indexer_leaves body >>= λ leaves. ok (record { index = index; leaf = leaf } ∷ leaves)

-- `replace(/\/+$/, '')`: the slashes at the end go.
unfoldable pub strip_slashes : Text → Text
strip_slashes [] = []
strip_slashes (c ∷ s) =
    let rest = strip_slashes s in if c == b'/' && length rest == 0 then [] else c ∷ rest

unfoldable pub fetch_leaves_from_indexer : Reads → Text → Result ActionError (List Leaf)
fetch_leaves_from_indexer reads indexer_url_raw =
    elim (reads.indexer (strip_slashes indexer_url_raw)) [
      | status code ↦ err (indexer_failed code)
      | leaves body ↦ indexer_leaves body
    ]

unfoldable pub fetch_current_root_fr : Reads → Text → Result ActionError Fr
fetch_current_root_fr reads controller_id =
    reads.current_root controller_id >>= λ native. lift field (bytes_to_field_canonical native)

pub record PoolWitness : Type 0 where
  pub index : ℕ
  pub siblings : List Fr
  pub bits : List ℕ
  pub root : Fr

abbrev pub rooted : Fr → Located → PoolWitness
rooted on_chain_root l = record {
  index = l.index;
  siblings = l.siblings;
  bits = l.bits;
  root = on_chain_root;
}

unfoldable pub with_root : Fr → Option Located → Option PoolWitness
with_root on_chain_root none = none
with_root on_chain_root (some l) = some (rooted on_chain_root l)

unfoldable pub incoming_leaves : Reads → Text → Result ActionError (List Leaf)
incoming_leaves reads controller_id =
    if length reads.indexer_url == 0
    then lift chain (fetch_leaves_from_chain (reads.get_events controller_id))
    else fetch_leaves_from_indexer reads reads.indexer_url

unfoldable pub locate_verified :
    (hash : Fr → Fr → Fr) → List Leaf → Bytes → Bool → Result ActionError (Option Located)
locate_verified hash merged my_stored_leaf verified =
    if not verified then err root_mismatch else lift sync (locate_leaf hash merged my_stored_leaf)

module _ (hash : Fr → Fr → Fr) where
  unfoldable pub sync_pool_and_locate : Reads → Bytes → Result ActionError (Option PoolWitness)
  sync_pool_and_locate reads my_stored_leaf = do
    controller_id ← fetch_registry_address reads (codes "zk-recovery")
    incoming ← incoming_leaves reads controller_id
    merged ← lift sync (merge_leaves [] incoming)
    on_chain_root ← fetch_current_root_fr reads controller_id
    verified ← lift sync (verify_against_on_chain_root hash merged on_chain_root)
    located ← locate_verified hash merged my_stored_leaf verified
    ok (with_root on_chain_root located)
