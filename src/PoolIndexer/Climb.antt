-- ===== src/PoolIndexer/Climb.antt =====
-- The indexer's inner loop: one leaf's climb from its level to the root.
use nido.Base.{
  ℕ, zero, suc, ◌+◌, ◌-◌, ◌*◌, ◌/◌, ◌%◌, ◌^◌, ◌<◌, ◌≤◌, ◌≡◌, ◌≢◌, inl, inr, refl, sym, ap, ◌∙◌,
  List, length, get_or, get_or-set_self, get_or-set_ne, length-set, set, ◌==◌, Bool-cases, shr,
  arith, ℕ_discrete,
}
use nido.ZkRecovery.Field.{Fr}
use nido.ZkRecovery.Merkle.{zeros, bit_at}
use nido.ZkRecovery.Merkle.Spec.{node, node_beyond}
use nido.PoolIndexer.Zeros.{hash, p2raw-hash_pair}
use nido.PoolIndexer.Merkle.{p2raw, climb}

bit_at_lem : (index level : ℕ) → index < 2 ^ 32 → bit_at index level ≡ shr index level % 2
unfolding bit_at
bit_at_lem index level h = let same : index % 2 ^ 32 ≡ index = omega arith in rw same

module _ (poseidon2_hash : List Fr → Fr) where
  -- The frontier holds, at each level from `level` on whose bit is set in `idx`, the left sibling
  -- of the node that the leaf at `idx` stands under.
  abbrev pub Holds : List Fr → ℕ → ℕ → ℕ → List Fr → Type 0
  Holds ls level idx height frontier =
      (j : ℕ)
      → level ≤ j
      → j < height
      → shr idx j % 2 ≡ 1
      → get_or frontier j 0 ≡ node (hash poseidon2_hash) ls j (shr idx j - 1)

  -- What the climb from `level` leaves: the root, and the frontier with the node on the leaf's path
  -- at each level whose bit is not set.
  pub record Climbed (ls : List Fr) (level idx height : ℕ) (frontier : List Fr)
      (result : List Fr × Fr) : Type 0 where
    pub top : result.1 ≡ node (hash poseidon2_hash) ls height (shr idx height)
    pub size : length result.0 ≡ height
    pub below : (j : ℕ) → j < level → get_or result.0 j 0 ≡ get_or frontier j 0
    pub written :
        (j : ℕ)
        → level ≤ j
        → j < height
        → shr idx j % 2 ≡ 0
        → get_or result.0 j 0 ≡ node (hash poseidon2_hash) ls j (shr idx j)
    pub kept : (j : ℕ) → shr idx j % 2 ≡ 1 → get_or result.0 j 0 ≡ get_or frontier j 0

  module _ (zs : List Fr) (ls : List Fr) (idx height : ℕ)
      (table : (j : ℕ) → j ≤ height → get_or zs j 0 ≡ zeros (hash poseidon2_hash) j)
      (small : idx < 2 ^ 32) (last : length ls ≡ suc idx) where
    differs : (i j : ℕ) → shr idx i % 2 ≡ 0 → shr idx j % 2 ≡ 1 → i ≢ j
    differs i j even odd same = let e = ap (λ (t : ℕ). shr idx t % 2) same in omega arith

    above : (i j : ℕ) → i ≤ j → j ≢ i → suc i ≤ j
    above i j le ne = omega arith

    -- One round, by the bit of the level.
    even_node :
        (level : ℕ) (cur : Fr)
        → level < height
        → shr idx level % 2 ≡ 0
        → cur ≡ node (hash poseidon2_hash) ls level (shr idx level)
        → p2raw poseidon2_hash cur (get_or zs level 0)
          ≡ node (hash poseidon2_hash) ls (suc level) (shr idx (suc level))
    unfolding node shr
    even_node level cur lt even e =
        let left : shr idx level ≡ 2 * (shr idx level / 2) = omega arith in
        let right : shr idx level + 1 ≡ 2 * (shr idx level / 2) + 1 = omega arith in
        let beyond =
          node_beyond (hash poseidon2_hash) ls idx level (shr idx level + 1) last (omega arith) in
        p2raw-hash_pair poseidon2_hash cur (get_or zs level 0) ∙ cc (table level (omega arith))

    odd_node :
        (level : ℕ) (left cur : Fr)
        → shr idx level % 2 ≡ 1
        → left ≡ node (hash poseidon2_hash) ls level (shr idx level - 1)
        → cur ≡ node (hash poseidon2_hash) ls level (shr idx level)
        → p2raw poseidon2_hash left cur
          ≡ node (hash poseidon2_hash) ls (suc level) (shr idx (suc level))
    unfolding node shr
    odd_node level left cur odd l e =
        let before : shr idx level - 1 ≡ 2 * (shr idx level / 2) = omega arith in
        let here : shr idx level ≡ 2 * (shr idx level / 2) + 1 = omega arith in
        p2raw-hash_pair poseidon2_hash left cur ∙ cc

    -- The rounds after a write at `level`, and the write.
    even_round :
        (level : ℕ) (frontier : List Fr) (cur : Fr) (result : List Fr × Fr)
        → level < length frontier
        → shr idx level % 2 ≡ 0
        → cur ≡ node (hash poseidon2_hash) ls level (shr idx level)
        → Climbed ls (suc level) idx height (set frontier level cur) result
        → Climbed ls level idx height frontier result
    even_round level frontier cur result lt even e c = record {
      top = c.top;
      size = c.size;
      below =
          λ j before. c.below j (omega arith) ∙ get_or-set_ne frontier level j cur 0 (omega arith);
      written = λ j le top even_j. elim (ℕ_discrete level j) [
        | yes same ↦
            ap (λ (t : ℕ). get_or (result.0) t 0) (sym same)
            ∙ c.below level (omega arith)
            ∙ get_or-set_self frontier level cur 0 lt
            ∙ e
            ∙ ap (λ (t : ℕ). node (hash poseidon2_hash) ls t (shr idx t)) same
        | no other ↦ c.written j (omega arith) top even_j
      ];
      kept =
          λ j odd. c.kept j odd ∙ get_or-set_ne frontier level j cur 0 (differs level j even odd);
    }

    -- The rounds after one that reads the frontier at `level`.
    odd_round :
        (level : ℕ) (frontier : List Fr) (result : List Fr × Fr)
        → shr idx level % 2 ≡ 1
        → Climbed ls (suc level) idx height frontier result
        → Climbed ls level idx height frontier result
    odd_round level frontier result odd c = record {
      top = c.top;
      size = c.size;
      below = λ j before. c.below j (omega arith);
      written = λ j le top even. c.written j (above level j le (differs j level even odd)) top even;
      kept = c.kept;
    }

    pub climb-Climbed :
        (count level : ℕ) (frontier : List Fr) (cur : Fr)
        → level + count ≡ height
        → length frontier ≡ height
        → cur ≡ node (hash poseidon2_hash) ls level (shr idx level)
        → Holds ls level idx height frontier
        → Climbed ls level idx height frontier
            (climb poseidon2_hash zs idx count level frontier cur)
    unfolding climb
    climb-Climbed zero level frontier cur h size e holds =
        let here : level ≡ height = omega arith in
        record {
          top = e ∙ ap (λ (t : ℕ). node (hash poseidon2_hash) ls t (shr idx t)) here;
          size = size;
          below = λ j lt. refl;
          written = λ j le lt even. absurd (omega arith);
          kept = λ j odd. refl;
        }
    climb-Climbed (suc count) level frontier cur h size e holds =
        let bit = bit_at_lem idx level small in
        elim (Bool-cases (bit_at idx level == 0)) [
          | inl left ↦
              let even : shr idx level % 2 ≡ 0 = ground (arith, bit) in
              rw left (
                even_round level frontier cur _ (omega arith) even e (
                  climb-Climbed count (suc level) (set frontier level cur)
                    (p2raw poseidon2_hash cur (get_or zs level 0)) (omega arith)
                    (length-set frontier level cur ∙ size)
                    (even_node level cur (omega arith) even e)
                    (λ j le lt odd.
                      get_or-set_ne frontier level j cur 0 (omega arith)
                      ∙ holds j (omega arith) lt odd)))
          | inr right ↦
              let odd : shr idx level % 2 ≡ 1 = ground (arith, bit) in
              rw right (
                odd_round level frontier _ odd (
                  climb-Climbed count (suc level) frontier
                    (p2raw poseidon2_hash (get_or frontier level 0) cur) (omega arith) size
                    (odd_node level (get_or frontier level 0) cur odd
                      (holds level (omega arith) (omega arith) odd) e)
                    (λ j le lt o. holds j (omega arith) lt o)))
        ]
