-- ===== src/ZkRecovery/PoolSync.antt =====
-- packages/passkey-sdk/src/zkRecovery/poolSync.ts: the pool's leaves from an untrusted source.
-- `byIndex` is an association list in the order of insertion; `sort` is the ascending sort of the
-- language, written as an insertion sort. `hash` stands for `p2` at two inputs.
pub mod Collect
pub mod Merge
pub mod Witness
use nido.Base.{
  ℕ, zero, suc, List, [], ◌∷◌, ◌++◌, map, Option, none, some, Bool, true, false, ◌&&◌, not, Result,
  ok, err, ◌>>=◌, ◌==◌, leb, if◌then◌else◌, length,
}
use nido.ZkRecovery.Field.{Fr, Bytes, FieldError, bytes_to_field_canonical}
use nido.ZkRecovery.Merkle.{MerkleError, MerklePath, insert, root, path_for}

pub record Leaf : Type 0 where
  pub index : ℕ
  pub leaf : Bytes

pub data SyncError : Type 0 where
  conflicting_leaf : ℕ → SyncError
  non_contiguous : (expected got : ℕ) → SyncError
  bad_field : FieldError → SyncError
  bad_path : MerkleError → SyncError

-- The loop of `bytesEqual`, over arrays of one length.
abbrev pub same_bytes : Bytes → Bytes → Bool
same_bytes [] b = true
same_bytes (x ∷ a) [] = false
same_bytes (x ∷ a) (y ∷ b) = x == y && same_bytes a b

unfoldable pub bytes_equal : Bytes → Bytes → Bool
bytes_equal a b = if not (length a == length b) then false else same_bytes a b

abbrev pub ByIndex : Type 0
ByIndex = List (ℕ × Bytes)

unfoldable pub get : ℕ → ByIndex → Option Bytes
get index [] = none
get index ((i, leaf) ∷ entries) = if i == index then some leaf else get index entries

-- The first loop of `mergeLeaves`.
unfoldable pub collect : List Leaf → ByIndex → Result SyncError ByIndex
collect [] by_index = ok by_index
collect (l ∷ leaves) by_index = elim (get l.index by_index) [
  | none ↦ collect leaves (by_index ++ (l.index, l.leaf) ∷ [])
  | some existing ↦ elim (bytes_equal existing l.leaf) [
    | true ↦ collect leaves by_index
    | false ↦ err (conflicting_leaf l.index)
  ]
]

abbrev pub keys : ByIndex → List ℕ
keys [] = []
keys ((i, leaf) ∷ entries) = i ∷ keys entries

unfoldable pub insert_index : ℕ → List ℕ → List ℕ
insert_index i [] = i ∷ []
insert_index i (j ∷ indices) = if leb i j then i ∷ j ∷ indices else j ∷ insert_index i indices

unfoldable pub sort : List ℕ → List ℕ
sort [] = []
sort (i ∷ indices) = insert_index i (sort indices)

-- The second loop of `mergeLeaves`, from place `i` on.
unfoldable pub check_contiguous : ℕ → List ℕ → Result SyncError (Unit {0})
check_contiguous i [] = ok tt
check_contiguous i (index ∷ indices) =
    let rest = check_contiguous (suc i) indices in
    if index == i then rest else err (non_contiguous i index)

-- `{ index, leaf: byIndex.get(index)! }`: every index is a key.
unfoldable pub entry : ByIndex → ℕ → Leaf
entry by_index index = record {
  index = index;
  leaf = elim (get index by_index) [ none ↦ [] | some leaf ↦ leaf ];
}

unfoldable pub merge_leaves : List Leaf → List Leaf → Result SyncError (List Leaf)
merge_leaves known incoming = do
  by_index ← collect (known ++ incoming) []
  let indices = sort (keys by_index)
  _ ← check_contiguous 0 indices
  ok (map (entry by_index) indices)

-- A throw of another module, as an error of this one.
abbrev pub lift_field : Result FieldError Fr → Result SyncError Fr
lift_field (ok x) = ok x
lift_field (err e) = err (bad_field e)

abbrev pub lift_path : Result MerkleError MerklePath → Result SyncError MerklePath
lift_path (ok p) = ok p
lift_path (err e) = err (bad_path e)

-- The loop of `rebuildRoot`: `tree` is the leaves inserted so far.
unfoldable pub insert_leaves : List Leaf → List Fr → Result SyncError (List Fr)
insert_leaves [] tree = ok tree
insert_leaves (l ∷ leaves) tree = do
  x ← lift_field (bytes_to_field_canonical l.leaf)
  insert_leaves leaves ((insert x tree).1)

-- The loop of `locateLeaf`: the tree, and the last index at which `mine` stood.
unfoldable pub locate_from :
    Bytes → List Leaf → List Fr → Option ℕ → Result SyncError (List Fr × Option ℕ)
locate_from mine [] tree found = ok (tree, found)
locate_from mine (l ∷ leaves) tree found = do
  x ← lift_field (bytes_to_field_canonical l.leaf)
  let (index, tree') = insert x tree
  locate_from mine leaves tree' (if bytes_equal l.leaf mine then some index else found)

pub record Located : Type 0 where
  pub index : ℕ
  pub siblings : List Fr
  pub bits : List ℕ

module _ (hash : Fr → Fr → Fr) where
  unfoldable pub rebuild_root : List Leaf → Result SyncError Fr
  rebuild_root leaves = do
    merged ← merge_leaves [] leaves
    tree ← insert_leaves merged []
    ok (root hash tree)

  unfoldable pub verify_against_on_chain_root : List Leaf → Fr → Result SyncError Bool
  verify_against_on_chain_root leaves on_chain_root = do
    r ← rebuild_root leaves
    ok (r == on_chain_root)

  -- The end of `locateLeaf`.
  unfoldable pub witness_at : List Fr → Option ℕ → Result SyncError (Option Located)
  witness_at tree none = ok none
  witness_at tree (some index) = do
    p ← lift_path (path_for hash tree index)
    ok (some (record { index = index; siblings = p.siblings; bits = p.bits }))

  unfoldable pub locate_leaf : List Leaf → Bytes → Result SyncError (Option Located)
  locate_leaf leaves mine = do
    merged ← merge_leaves [] leaves
    (tree, found) ← locate_from mine merged [] none
    witness_at tree found
