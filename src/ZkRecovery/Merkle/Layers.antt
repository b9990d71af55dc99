-- ===== src/ZkRecovery/Merkle/Layers.antt =====
-- The layers of `buildLayers` hold the nodes of the padded tree, and so the root is its root.
use nido.Base.{
  ℕ, zero, suc, ◌+◌, ◌*◌, ◌/◌, ◌<◌, ◌≡◌, refl, ap, ◌∙◌, List, [], ◌∷◌, length, get_or,
  get_or_beyond, arith, dec_lt, sym, suc_ne_zero,
}
use nido.ZkRecovery.Field.{Fr}
use nido.ZkRecovery.Merkle.{zeros, next_from, next_layer, layer_at, root, depth}
use nido.ZkRecovery.Merkle.Spec.{node, node-nil}

get_or_default : (l : List Fr) (d e : Fr) → 0 < length l → get_or l 0 d ≡ get_or l 0 e
get_or_default [] d e h = elim h [ ]
get_or_default (x ∷ l) d e h = refl

module _ (hash : Fr → Fr → Fr) where
  -- Place `k` of the rest of a layer is place `j` of the layer.
  get_or-next_from :
      (level count i k j : ℕ) (layer : List Fr)
      → k < count
      → i + k ≡ j
      → get_or (next_from hash level count i layer) k (zeros hash (suc level))
        ≡ hash
            (get_or layer (2 * j) (zeros hash level))
            (get_or layer (2 * j + 1) (zeros hash level))
  unfolding next_from
  get_or-next_from level zero i k j layer h e = elim h [ ]
  get_or-next_from level (suc count) i zero j layer h e = let same : i ≡ j = omega arith in rw same
  get_or-next_from level (suc count) i (suc k) j layer h e =
      get_or-next_from level count (suc i) k j layer (omega arith) (omega arith)

  length-next_from :
      (level count i : ℕ) (layer : List Fr) → length (next_from hash level count i layer) ≡ count
  unfolding next_from
  length-next_from level zero i layer = refl
  length-next_from level (suc count) i layer = ap suc (length-next_from level count (suc i) layer)

  -- Place `i` of the next layer, past its end too.
  get_or-next_layer :
      (level i : ℕ) (layer : List Fr)
      → get_or (next_layer hash level layer) i (zeros hash (suc level))
        ≡ hash
            (get_or layer (2 * i) (zeros hash level))
            (get_or layer (2 * i + 1) (zeros hash level))
  unfolding next_layer zeros
  get_or-next_layer level i layer = elim (dec_lt i ((length layer + 1) / 2)) [
    | yes h ↦ get_or-next_from level ((length layer + 1) / 2) 0 i i layer h (omega arith)
    | no h ↦
        get_or_beyond (next_from hash level ((length layer + 1) / 2) 0 layer) i _
          (omega (arith, length-next_from level ((length layer + 1) / 2) 0 layer))
        ∙ cc (
          get_or_beyond layer (2 * i) (zeros hash level) (omega arith),
          get_or_beyond layer (2 * i + 1) (zeros hash level) (omega arith),
        )
  ]

  -- Reading place `i` of `layers[level]`, with the zero of the level past its end, gives the node.
  pub layer_at-node :
      (leaves : List Fr) (level i : ℕ)
      → get_or (layer_at hash leaves level) i (zeros hash level) ≡ node hash leaves level i
  unfolding layer_at zeros node
  layer_at-node leaves zero i = refl
  layer_at-node leaves (suc level) i =
      get_or-next_layer level i (layer_at hash leaves level)
      ∙ cc (layer_at-node leaves level (2 * i), layer_at-node leaves level (2 * i + 1))

  length-layer_at :
      (leaves : List Fr) (level : ℕ) → 0 < length leaves → 0 < length (layer_at hash leaves level)
  unfolding layer_at next_layer
  length-layer_at leaves zero h = h
  length-layer_at leaves (suc level) h = omega (
    arith,
    length-layer_at leaves level h,
    length-next_from level ((length (layer_at hash leaves level) + 1) / 2) 0
        (layer_at hash leaves level),
  )

  -- The root that `IncrementalTree.root` returns is the root of the complete tree over the leaves,
  -- padded with zero leaves, for every list of leaves.
  pub root-node : (leaves : List Fr) → root hash leaves ≡ node hash leaves depth 0
  unfolding root
  root-node [] = sym (node-nil hash depth 0)
  root-node (x ∷ leaves) = rw (suc_ne_zero (length leaves)) (
      get_or_default (layer_at hash (x ∷ leaves) depth) 0 (zeros hash depth)
        (length-layer_at (x ∷ leaves) depth (omega arith))
      ∙ layer_at-node (x ∷ leaves) depth 0)
