-- ===== src/ZkRecovery/Merkle.antt =====
-- packages/passkey-sdk/src/zkRecovery/merkle.ts: the depth-24 tree that the SDK rebuilds from its
-- leaves. `hash` stands for `p2` at two inputs (ZkRecovery/Poseidon.antt); the tree is its leaves.
pub mod Spec
pub mod Layers
pub mod Paths
pub mod Binding
use nido.Base.{
  ℕ, zero, suc, ◌+◌, ◌-◌, ◌*◌, ◌/◌, ◌%◌, ◌^◌, List, [], ◌∷◌, ◌++◌, Result, ok, err, not, leb, ◌==◌,
  if◌then◌else◌, length, get_or, shr,
}
use nido.ZkRecovery.Field.{Fr}

abbrev pub depth : ℕ
depth = 24

pub data MerkleError : Type 0 where
  wrong_sibling_count index_out_of_range : ℕ → MerkleError

-- `(index >> level) & 1` for a level below 32: `>>` reads the index as 32 bits.
unfoldable pub bit_at : ℕ → ℕ → ℕ
bit_at index level = shr (index % 2 ^ 32) level % 2

pub record MerklePath : Type 0 where
  pub siblings : List Fr
  pub bits : List ℕ

-- `insert` returns the index and appends the leaf.
unfoldable pub insert : Fr → List Fr → ℕ × List Fr
insert leaf leaves = (length leaves, leaves ++ leaf ∷ [])

-- The bits that the loop of `pathFor` pushes.
unfoldable pub bits_from : ℕ → ℕ → List ℕ
bits_from zero idx = []
bits_from (suc count) idx = (idx % 2) ∷ bits_from count (idx / 2)

module _ (hash : Fr → Fr → Fr) where
  -- `ZEROS[i]`.
  unfoldable pub zeros : ℕ → Fr
  zeros zero = 0
  zeros (suc i) = hash (zeros i) (zeros i)

  -- The loop of `computeRoot` from `level` on, over the siblings that are left.
  unfoldable pub compute_from : ℕ → ℕ → List Fr → Fr → Fr
  compute_from index level [] cur = cur
  compute_from index level (sib ∷ siblings) cur =
      compute_from index (suc level) siblings
        (if bit_at index level == 0 then hash cur sib else hash sib cur)

  unfoldable pub compute_root : Fr → ℕ → List Fr → Result MerkleError Fr
  compute_root leaf index siblings =
      if not (length siblings == depth)
      then err (wrong_sibling_count (length siblings))
      else ok (compute_from index 0 siblings leaf)

  -- The loop of `buildLayers` over one layer, with `count` places left from place `i` on.
  unfoldable pub next_from : ℕ → ℕ → ℕ → List Fr → List Fr
  next_from level zero i layer = []
  next_from level (suc count) i layer =
      hash (get_or layer (2 * i) (zeros level)) (get_or layer (2 * i + 1) (zeros level))
      ∷ next_from level count (suc i) layer

  -- `Math.ceil(layer.length / 2)` places.
  unfoldable pub next_layer : ℕ → List Fr → List Fr
  next_layer level layer = next_from level ((length layer + 1) / 2) 0 layer

  -- `layers[level]` of `buildLayers`.
  unfoldable pub layer_at : List Fr → ℕ → List Fr
  layer_at leaves zero = leaves
  layer_at leaves (suc level) = next_layer level (layer_at leaves level)

  -- `layers[DEPTH][0]`; the layer is not empty when a leaf is there.
  unfoldable pub root : List Fr → Fr
  root leaves = if length leaves == 0 then zeros depth else get_or (layer_at leaves depth) 0 0

  -- The loop of `pathFor` with `count` levels left.
  unfoldable pub siblings_from : List Fr → ℕ → ℕ → ℕ → List Fr
  siblings_from leaves zero level idx = []
  siblings_from leaves (suc count) level idx =
      get_or (layer_at leaves level) (if idx % 2 == 0 then idx + 1 else idx - 1) (zeros level)
      ∷ siblings_from leaves count (suc level) (idx / 2)

  unfoldable pub path_for : List Fr → ℕ → Result MerkleError MerklePath
  path_for leaves index =
      if leb (length leaves) index
      then err (index_out_of_range index)
      else ok
          (record { siblings = siblings_from leaves depth 0 index; bits = bits_from depth index })
