-- ===== src/ZkRecovery/Merkle/Spec.antt =====
-- What the trees compute: the complete binary tree over the leaves, padded with zeros. The
-- SDK's layers (Merkle/Layers) and the indexer's frontier (PoolIndexer/Frontier) both refine it.
use nido.Base.{
  ℕ, zero, suc, ◌+◌, ◌*◌, ◌<◌, ◌≡◌, refl, List, [], ◌++◌, length, get_or, get_or_beyond,
  get_or-append_left, shr, arith,
}
use nido.ZkRecovery.Field.{Fr}
use nido.ZkRecovery.Merkle.{zeros}

module _ (hash : Fr → Fr → Fr) where
  -- The value of the node at place `i` of a level.
  unfoldable pub node : List Fr → ℕ → ℕ → Fr
  node leaves zero i = get_or leaves i 0
  node leaves (suc level) i = hash (node leaves level (2 * i)) (node leaves level (2 * i + 1))

  -- A node behind the last leaf's is the zero of its level.
  pub node_beyond :
      (leaves : List Fr) (last level i : ℕ)
      → length leaves ≡ suc last
      → shr last level < i
      → node leaves level i ≡ zeros hash level
  unfolding node zeros shr
  node_beyond leaves last zero i len h = get_or_beyond leaves i 0 (omega arith)
  node_beyond leaves last (suc level) i len h =
      let l = node_beyond leaves last level (2 * i) len (omega arith) in
      let r = node_beyond leaves last level (2 * i + 1) len (omega arith) in cc

  -- A node whose leaves are all there is not changed by an insertion.
  pub node-append :
      (leaves more : List Fr) (level i : ℕ)
      → i < shr (length leaves) level
      → node (leaves ++ more) level i ≡ node leaves level i
  unfolding node shr
  node-append leaves more zero i h = get_or-append_left leaves more i 0 h
  node-append leaves more (suc level) i h =
      let l = node-append leaves more level (2 * i) (omega arith) in
      let r = node-append leaves more level (2 * i + 1) (omega arith) in cc

  pub node-nil : (level i : ℕ) → node [] level i ≡ zeros hash level
  unfolding node zeros
  node-nil zero i = refl
  node-nil (suc level) i =
      let l = node-nil level (2 * i) in let r = node-nil level (2 * i + 1) in cc
