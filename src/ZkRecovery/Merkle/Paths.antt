-- ===== src/ZkRecovery/Merkle/Paths.antt =====
-- The path that `pathFor` returns opens the root at the leaf's index.
use nido.Base.{
  ℕ, zero, suc, ◌+◌, ◌-◌, ◌*◌, ◌/◌, ◌%◌, ◌^◌, ◌<◌, ◌≤◌, ◌≡◌, refl, sym, ap, ◌∙◌, List, length,
  get_or, ok, ◌==◌, map, up_from, Bool-cases, inl, inr, if◌then◌else◌, shr, shr-lt_pow, arith,
}
use nido.ZkRecovery.Field.{Fr}
use nido.ZkRecovery.Merkle
use nido.ZkRecovery.Merkle.{
  zeros, layer_at, siblings_from, bits_from, path_for, MerklePath, compute_from, compute_root, root,
  bit_at,
}
use nido.ZkRecovery.Merkle.Spec.{node}
use nido.ZkRecovery.Merkle.Layers.{layer_at-node, root-node}

bit_at_lem : (index level : ℕ) → index < 2 ^ 32 → bit_at index level ≡ shr index level % 2
unfolding bit_at
bit_at_lem index level h = let same : index % 2 ^ 32 ≡ index = omega arith in rw same

bits_from-map :
    (count index level : ℕ)
    → index < 2 ^ 32
    → bits_from count (shr index level) ≡ map (bit_at index) (up_from count level)
unfolding bits_from shr
bits_from-map zero index level h = refl
bits_from-map (suc count) index level h =
    cc (bit_at_lem index level h, bits_from-map count index (suc level) h)

module _ (hash : Fr → Fr → Fr) where
  -- A node and its sibling, in the order of the bit, make the node above.
  climb_step :
      (leaves : List Fr) (level idx : ℕ)
      → (if idx % 2 == 0
          then hash (node hash leaves level idx) (node hash leaves level (idx + 1))
          else hash (node hash leaves level (idx - 1)) (node hash leaves level idx))
        ≡ node hash leaves (suc level) (idx / 2)
  unfolding node
  climb_step leaves level idx = elim (Bool-cases (idx % 2 == 0)) [
    | inl left ↦
        let even : idx ≡ 2 * (idx / 2) = ground arith in
        let same = ap (node hash leaves level) even in
        let next = ap (λ (t : ℕ). node hash leaves level (t + 1)) even in rw left (cc)
    | inr right ↦
        let odd : idx ≡ 2 * (idx / 2) + 1 = ground arith in
        let before : idx - 1 ≡ 2 * (idx / 2) = omega arith in
        let same = ap (node hash leaves level) odd in
        let previous = ap (node hash leaves level) before in rw right (cc)
  ]

  -- The sibling that `pathFor` reads is the sibling's node.
  choose_sibling :
      (leaves : List Fr) (index level : ℕ)
      → bit_at index level ≡ shr index level % 2
      → (if bit_at index level == 0
          then hash (node hash leaves level (shr index level)) (
              get_or
                (layer_at hash leaves level)
                (if shr index level % 2 == 0 then shr index level + 1 else shr index level - 1)
                (zeros hash level))
          else hash
              (get_or
                (layer_at hash leaves level)
                (if shr index level % 2 == 0 then shr index level + 1 else shr index level - 1)
                (zeros hash level))
              (node hash leaves level (shr index level)))
        ≡ (if shr index level % 2 == 0
            then hash
                (node hash leaves level (shr index level))
                (node hash leaves level (shr index level + 1))
            else hash
                (node hash leaves level (shr index level - 1))
                (node hash leaves level (shr index level)))
  choose_sibling leaves index level e = rw (e, layer_at-node) (ground arith)

  length-siblings_from :
      (leaves : List Fr) (count level idx : ℕ)
      → length (siblings_from hash leaves count level idx) ≡ count
  unfolding siblings_from
  length-siblings_from leaves zero level idx = refl
  length-siblings_from leaves (suc count) level idx =
      ap suc (length-siblings_from leaves count (suc level) (idx / 2))

  compute_from-siblings_from :
      (leaves : List Fr) (index count level top : ℕ)
      → index < 2 ^ 32
      → level + count ≡ top
      → compute_from hash index level
          (siblings_from hash leaves count level (shr index level))
          (node hash leaves level (shr index level))
        ≡ node hash leaves top (shr index top)
  unfolding compute_from siblings_from shr
  compute_from-siblings_from leaves index zero level top h e =
      let same : level ≡ top = omega arith in ap (λ (t : ℕ). node hash leaves t (shr index t)) same
  compute_from-siblings_from leaves index (suc count) level top h e =
      ap
        (compute_from hash index (suc level)
          (siblings_from hash leaves count (suc level) (shr index level / 2)))
        (choose_sibling leaves index level (bit_at_lem index level h)
          ∙ climb_step leaves level (shr index level))
      ∙ compute_from-siblings_from leaves index count (suc level) top h (omega arith)

  -- For an index in range and at most 2^24 leaves, `pathFor` returns a path: `computeRoot` of the
  -- leaf at that index along its siblings is the tree's root, and its bits are those that
  -- `computeRoot` reads at the levels 0 to 23.
  pub compute_root-path_for :
      (leaves : List Fr) (index : ℕ)
      → index < length leaves
      → length leaves ≤ 2 ^ Merkle.depth
      → (p : MerklePath) × (path_for hash leaves index ≡ ok p)
        × (p.bits ≡ map (bit_at index) (up_from Merkle.depth 0))
        × (compute_root hash (get_or leaves index 0) index p.siblings ≡ ok (root hash leaves))
  unfolding path_for compute_root shr node
  compute_root-path_for leaves index h fits =
      let small : index < 2 ^ 32 = omega arith in
      let siblings = siblings_from hash leaves Merkle.depth 0 index in
      let top : shr index Merkle.depth ≡ 0 =
        omega (arith, shr-lt_pow index Merkle.depth 1 (omega arith)) in
      let climbed : compute_from hash index 0 siblings (get_or leaves index 0) ≡ root hash leaves =
        compute_from-siblings_from leaves index Merkle.depth 0 Merkle.depth small (omega arith)
        ∙ ap (node hash leaves Merkle.depth) top
        ∙ sym (root-node hash leaves) in
      (
        record { siblings = siblings; bits = bits_from Merkle.depth index },
        ground arith,
        bits_from-map Merkle.depth index 0 small,
        rw (length-siblings_from leaves Merkle.depth 0 index) (ap ok climbed),
      )
