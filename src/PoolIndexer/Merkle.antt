-- ===== src/PoolIndexer/Merkle.antt =====
-- infra/pool-indexer/src/merkle.ts: the frontier algorithm, over `poseidon2Hash`, the parameter
-- `poseidon2_hash`. A bigint is a natural number: leaves and hashes are not negative.
use nido.Base.{
  ℕ, zero, suc, ◌%◌, List, [], ◌∷◌, ◌++◌, length, get_or, set, replicate, ◌==◌, if◌then◌else◌,
}
use nido.ZkRecovery.Field.{Fr, field_order}
use nido.ZkRecovery.Merkle.{bit_at}

abbrev pub depth : ℕ
depth = 24

abbrev pub reduce_mod : ℕ → Fr
reduce_mod x = x % field_order

module _ (poseidon2_hash : List Fr → Fr) where
  unfoldable pub p2raw : Fr → Fr → Fr
  p2raw a b = poseidon2_hash (reduce_mod a ∷ reduce_mod b ∷ [])

  -- The loop of `computeZeros` with `count` rounds left, from round `i` on.
  unfoldable pub zeros_from : ℕ → ℕ → List Fr → List Fr
  zeros_from zero i zs = zs
  zeros_from (suc count) i zs =
      zeros_from count (suc i) (zs ++ p2raw (get_or zs i 0) (get_or zs i 0) ∷ [])

  unfoldable pub compute_zeros : ℕ → List Fr
  compute_zeros height = zeros_from height 0 (0 ∷ [])

  -- The loop over the levels: the frontier and the running node, with `count` levels left.
  unfoldable pub climb : List Fr → ℕ → ℕ → ℕ → List Fr → Fr → List Fr × Fr
  climb zs idx zero level frontier cur = (frontier, cur)
  climb zs idx (suc count) level frontier cur =
      climb zs idx count (suc level)
        (if bit_at idx level == 0 then set frontier level cur else frontier)
        (if bit_at idx level == 0
          then p2raw cur (get_or zs level 0)
          else p2raw (get_or frontier level 0) cur)

  -- The loop over the leaves from index `idx` on; the result is `root` when none is left.
  unfoldable pub insert_all : ℕ → List Fr → ℕ → List Fr → Fr → List Fr → Fr
  insert_all height zs idx frontier root [] = root
  insert_all height zs idx frontier root (leaf ∷ leaves) =
      let (frontier', cur) = climb zs idx height 0 frontier (reduce_mod leaf) in
      insert_all height zs (suc idx) frontier' cur leaves

  -- `rebuildRoot(leaves, depth)`; `ZEROS` is `computeZeros(DEPTH)`.
  unfoldable pub rebuild_root : List Fr → ℕ → Fr
  rebuild_root leaves height =
      let zs = compute_zeros height in
      if length leaves == 0
      then get_or zs height 0
      else insert_all height zs 0 (replicate height 0) (get_or zs height 0) leaves
