-- ===== src/PoolIndexer/Snapshot.antt =====
-- infra/pool-indexer/src/merkle.ts and handler.ts: leaves as hex text, and the routes. `rebuildRoot`
-- is PoolIndexer/Merkle.antt; a throw, and a listing that needs more pages than `fuel`, is an error.
pub mod Root
use nido.Base.{
  ℕ, List, [], ◌∷◌, ◌++◌, Option, none, some, Bool, true, false, ◌&&◌, not, Result, ok, err, ◌>>=◌,
  ◌||◌, ◌==◌, leb, if◌then◌else◌, length,
}
use nido.Base.Decimal.{Text}
use nido.Base.Hex.{is_hex, hex_value, padded_hex}
use nido.ZkRecovery.Field.{Fr, field_order}
use nido.PoolIndexer.Merkle.{depth, rebuild_root}
use nido.PoolIndexer.Store.{LeafRecord, Page, parse_from, list_leaves_from}

pub data IndexerError : Type 0 where
  bad_hex : Text → IndexerError
  non_canonical : Text → IndexerError
  out_of_canonical_range : Fr → IndexerError
  too_many_pages : IndexerError

abbrev pub hex_prefix : Text
hex_prefix = b'0' ∷ b'x' ∷ []

unfoldable pub strip_prefix : Text → Text
strip_prefix [] = []
strip_prefix (c ∷ []) = c ∷ []
strip_prefix (c ∷ d ∷ s) = if c == b'0' && (d == b'x' || d == b'X') then s else c ∷ d ∷ s

unfoldable pub all_hex : Text → Bool
all_hex [] = true
all_hex (c ∷ s) = is_hex c && all_hex s

unfoldable pub hex_to_fr : Text → Result IndexerError Fr
hex_to_fr hex =
    let s = strip_prefix hex in
    if not (length s == 64 && all_hex s)
    then err (bad_hex hex)
    else if leb field_order (hex_value 0 s)
    then err (non_canonical hex)
    else ok (hex_value 0 s)

unfoldable pub fr_to_hex : Fr → Result IndexerError Text
fr_to_hex x =
    if leb field_order x then err (out_of_canonical_range x) else ok (hex_prefix ++ padded_hex 64 x)

-- `leaves.map((l) => hexToFr(l.leaf))`.
unfoldable pub leaf_values : List LeafRecord → Result IndexerError (List Fr)
leaf_values [] = ok []
leaf_values (l ∷ leaves) = do x ← hex_to_fr l.leaf; xs ← leaf_values leaves; ok (x ∷ xs)

pub data Method : Type 0 where
  get_method options_method other_method : Method

pub data Pathname : Type 0 where
  root_path leaves_path snapshot_path other_path : Pathname

pub record Request : Type 0 where
  pub method : Method
  pub pathname : Pathname
  pub from : Option Text

pub data Response : Type 0 where
  preflight service bad_cursor not_found : Response
  leaves_body : List LeafRecord → Response
  snapshot_body : (root : Text) (next_index : ℕ) (leaves : List LeafRecord) → Response

abbrev pub listed : Option (List LeafRecord) → Result IndexerError (List LeafRecord)
listed none = err too_many_pages
listed (some leaves) = ok leaves

module _ (poseidon2_hash : List Fr → Fr) where
  -- The body of `/snapshot`, of the leaves that the store lists.
  unfoldable pub snapshot : List LeafRecord → Result IndexerError Response
  snapshot leaves = do
    values ← leaf_values leaves
    root ← fr_to_hex (rebuild_root poseidon2_hash values depth)
    ok (snapshot_body root (length leaves) leaves)

module _ (poseidon2_hash : List Fr → Fr) {S : Type 0} (get : S → Text → Option Text)
    (list : S → Text → Option Text → Page) where
  unfoldable pub handle_pool_indexer : ℕ → S → Request → Result IndexerError Response
  handle_pool_indexer fuel store request = elim (request.method) [
    | options_method ↦ ok preflight
    | other_method ↦ ok not_found
    | get_method ↦ elim (request.pathname) [
      | root_path ↦ ok service
      | leaves_path ↦ elim (parse_from request.from) [
        | none ↦ ok bad_cursor
        | some from ↦
            listed (list_leaves_from get list fuel store from) >>= λ leaves. ok (leaves_body leaves)
      ]
      | snapshot_path ↦ listed (list_leaves_from get list fuel store 0) >>= snapshot poseidon2_hash
      | other_path ↦ ok not_found
    ]
  ]
