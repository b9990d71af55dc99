-- ===== src/Tests/Pool.antt =====
-- The pool indexer, the tree and the sync, with a toy hash in place of Poseidon2.
use nido.Base.{
  ℕ, ◌+◌, ◌*◌, ◌%◌, ◌≡◌, ◌⊎◌, refl, List, [], ◌∷◌, ◌++◌, map, some, ok, replicate, up_from, arith,
}
use nido.ZkRecovery.Field.{Fr, Bytes, field_order, bytes_to_field_canonical, bytes_to_big_int_be}
use nido.ZkRecovery.Poseidon.{hash_pair}
use nido.ZkRecovery.Merkle.{
  depth, root, siblings_from, bits_from, path_for, compute_root, compute_from, bit_at, insert,
}
use nido.ZkRecovery.Merkle.Spec.{node}
use nido.ZkRecovery.Merkle.Layers.{root-node}
use nido.ZkRecovery.Merkle.Binding.{CollisionIn, children, compute_root_binding}
use nido.ZkRecovery.PoolSync.{
  Leaf, Located, merge_leaves, collect, get, bytes_equal, sort, insert_index, check_contiguous,
  entry, insert_leaves, locate_from, witness_at, locate_leaf,
}
use nido.ZkRecovery.PoolSync
use nido.ZkRecovery.PoolSync.Merge.{IsMerged, merge_leaves-IsMerged}
use nido.ZkRecovery.PoolSync.Witness.{compute_root-locate_leaf}
use nido.PoolIndexer.Merkle.{rebuild_root}
use nido.PoolIndexer.Frontier.{rebuild_root-root}

abbrev toy_poseidon : List Fr → Fr
toy_poseidon [] = 11
toy_poseidon (x ∷ xs) = (x + 7 * toy_poseidon xs) % field_order

abbrev toy_hash : Fr → Fr → Fr
toy_hash a b = (3 * a + 5 * b + 1) % field_order

rebuild_root-root_example :
    rebuild_root toy_poseidon (5 ∷ 6 ∷ 7 ∷ []) 24 ≡ root (hash_pair toy_poseidon) (5 ∷ 6 ∷ 7 ∷ [])
rebuild_root-root_example =
    rebuild_root-root toy_poseidon (5 ∷ 6 ∷ 7 ∷ []) (omega arith) (omega arith)

root-node_example : root toy_hash (5 ∷ 6 ∷ 7 ∷ []) ≡ node toy_hash (5 ∷ 6 ∷ 7 ∷ []) depth 0
root-node_example = root-node toy_hash (5 ∷ 6 ∷ 7 ∷ [])

abbrev ones : List Fr
ones = replicate 24 1

compute_root_binding_example :
    ((◌≡◌ {A = ℕ} 9 9) × (ones ≡ ones))
    ⊎ CollisionIn toy_hash (children toy_hash 2 0 ones 9) (children toy_hash 2 0 ones 9)
compute_root_binding_example =
    compute_root_binding toy_hash 2 ones ones 9 9 (compute_from toy_hash 2 0 ones 9) opened opened
  where
    opened : compute_root toy_hash 9 2 ones ≡ ok (compute_from toy_hash 2 0 ones 9)
    opened = unfold compute_root in refl

-- 32 bytes that spell a small number.
abbrev bytes_of : ℕ → Bytes
bytes_of n = replicate 31 0 ++ n ∷ []

abbrev leaf : ℕ → ℕ → Leaf
leaf i n = record { index = i; leaf = bytes_of n }

-- Out of order, and one leaf twice.
abbrev synced : List Leaf
synced = leaf 1 6 ∷ leaf 0 5 ∷ leaf 1 6 ∷ []

-- What a run of the sync unfolds.
sync_runs : Unit {0}
unfolding locate_leaf merge_leaves collect get bytes_equal sort insert_index check_contiguous entry
    insert_leaves locate_from witness_at insert bytes_to_field_canonical bytes_to_big_int_be
    path_for
sync_runs = tt

merged_lem : merge_leaves (leaf 1 6 ∷ []) (leaf 0 5 ∷ leaf 1 6 ∷ []) ≡ ok (leaf 0 5 ∷ leaf 1 6 ∷ [])
unfolding sync_runs
merged_lem = refl

merge_leaves-IsMerged_example : IsMerged synced (leaf 0 5 ∷ leaf 1 6 ∷ [])
merge_leaves-IsMerged_example =
    merge_leaves-IsMerged (leaf 1 6 ∷ []) (leaf 0 5 ∷ leaf 1 6 ∷ []) (leaf 0 5 ∷ leaf 1 6 ∷ [])
      merged_lem

-- The witness of the leaf at index 1.
abbrev located : Located
located = record {
  index = 1;
  siblings = siblings_from toy_hash (5 ∷ 6 ∷ []) 24 0 1;
  bits = bits_from 24 1;
}

located_lem : locate_leaf toy_hash synced (bytes_of 6) ≡ ok (some located)
unfolding sync_runs
located_lem = refl

compute_root-locate_leaf_example :
    (x : Fr) × (r : Fr) × (bytes_to_field_canonical (bytes_of 6) ≡ ok x)
    × (PoolSync.rebuild_root toy_hash synced ≡ ok r)
    × (compute_root toy_hash x 1 located.siblings ≡ ok r)
    × (located.bits ≡ map (bit_at 1) (up_from depth 0))
compute_root-locate_leaf_example =
    compute_root-locate_leaf toy_hash synced (bytes_of 6) located (omega arith) located_lem
