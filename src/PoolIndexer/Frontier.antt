-- ===== src/PoolIndexer/Frontier.antt =====
-- The indexer's frontier algorithm computes the root of the SDK's tree.
use nido.Base.{
  ℕ, zero, suc, ◌+◌, ◌-◌, ◌%◌, ◌^◌, ◌<◌, ◌≤◌, ◌≡◌, ◌⊎◌, inl, inr, refl, sym, ap, ◌∙◌, List, [], ◌∷◌,
  ◌++◌, length, length-append, get_or, get_or-append_last, replicate, All, shr, shr-lt_pow,
  shr-zero, suc_ne_zero, arith, append_assoc, append-nil,
}
use nido.ZkRecovery.Field.{Fr, field_order}
use nido.ZkRecovery.Poseidon.{hash_pair}
use nido.ZkRecovery.Merkle.{zeros, root}
use nido.ZkRecovery.Merkle.Spec.{node, node-append, node-nil}
use nido.ZkRecovery.Merkle.Layers.{root-node}
use nido.PoolIndexer.Zeros.{hash, compute_zeros-zeros}
use nido.PoolIndexer.Climb.{Holds, Climbed, climb-Climbed}
use nido.PoolIndexer.Merkle.{depth, reduce_mod, compute_zeros, climb, insert_all, rebuild_root}

-- Counting one more leaf leaves the number of nodes of a level, or adds one to it.
shr-suc : (x j : ℕ) → (shr (suc x) j ≡ shr x j) ⊎ (shr (suc x) j ≡ suc (shr x j))
unfolding shr
shr-suc x zero = inr refl
shr-suc x (suc j) = omega (arith, shr-suc x j)

length_snoc : (xs : List Fr) (x : Fr) → length (xs ++ x ∷ []) ≡ suc (length xs)
length_snoc xs x = omega (arith, length-append xs (x ∷ []))

module _ (poseidon2_hash : List Fr → Fr) where
  -- What the loop over the leaves keeps, when `seen` are inserted: the frontier is as the next climb
  -- needs it, and the root is that of the padded tree.
  record Inserted (seen : List Fr) (height : ℕ) (frontier : List Fr) (root_so_far : Fr)
      : Type 0 where
    size : length frontier ≡ height
    holds : Holds poseidon2_hash seen 0 (length seen) height frontier
    top : root_so_far ≡ node (hash poseidon2_hash) seen height 0

  Holds-append :
      (seen : List Fr) (leaf : Fr) (height : ℕ) (frontier : List Fr)
      → Holds poseidon2_hash seen 0 (length seen) height frontier
      → Holds poseidon2_hash (seen ++ leaf ∷ []) 0 (length seen) height frontier
  Holds-append seen leaf height frontier holds j le lt odd =
      holds j le lt odd
      ∙ sym (
          node-append (hash poseidon2_hash) seen (leaf ∷ []) j (shr (length seen) j - 1)
            (omega arith))

  module _ (zs : List Fr) (height : ℕ)
      (table : (j : ℕ) → j ≤ height → get_or zs j 0 ≡ zeros (hash poseidon2_hash) j) where
    -- One leaf, at the index that is the number of leaves before it.
    climb-Inserted :
        (seen frontier : List Fr) (leaf r : Fr)
        → length seen < 2 ^ 32
        → length seen < 2 ^ height
        → Inserted seen height frontier r
        → Climbed poseidon2_hash
            (seen ++ leaf ∷ [])
            0
            (length seen)
            height
            frontier
            (climb poseidon2_hash zs (length seen) height 0 frontier leaf)
    unfolding node shr
    climb-Inserted seen frontier leaf r small fits inv =
        climb-Climbed poseidon2_hash zs (seen ++ leaf ∷ []) (length seen) height table small
          (omega (arith, length-append seen (leaf ∷ []))) height 0 frontier leaf (omega arith)
          inv.size (sym (get_or-append_last seen leaf 0))
          (Holds-append seen leaf height frontier inv.holds)

    next-Inserted :
        (seen frontier : List Fr) (leaf : Fr) (result : List Fr × Fr)
        → length seen < 2 ^ height
        → Climbed poseidon2_hash (seen ++ leaf ∷ []) 0 (length seen) height frontier result
        → Holds poseidon2_hash (seen ++ leaf ∷ []) 0 (length seen) height frontier
        → Inserted (seen ++ leaf ∷ []) height result.0 result.1
    next-Inserted seen frontier leaf result fits c holds = record {
      size = c.size;
      holds = λ j le lt odd. elim (shr-suc (length seen) j) [
        | inl same ↦
            let odd' : shr (length seen) j % 2 ≡ 1 = omega (arith, counted j) in
            let place : shr (length seen) j - 1 ≡ shr (length (seen ++ leaf ∷ [])) j - 1 =
              omega (arith, counted j) in
            c.kept j odd'
            ∙ holds j le lt odd'
            ∙ ap (node (hash poseidon2_hash) (seen ++ leaf ∷ []) j) place
        | inr more ↦
            let even : shr (length seen) j % 2 ≡ 0 = omega (arith, counted j) in
            let place : shr (length seen) j ≡ shr (length (seen ++ leaf ∷ [])) j - 1 =
              omega (arith, counted j) in
            c.written j le lt even ∙ ap (node (hash poseidon2_hash) (seen ++ leaf ∷ []) j) place
      ];
      top = c.top ∙ ap (node (hash poseidon2_hash) (seen ++ leaf ∷ []) height) root_place;
    }
      where
        counted : (j : ℕ) → shr (length (seen ++ leaf ∷ [])) j ≡ shr (suc (length seen)) j
        counted j = ap (λ (t : ℕ). shr t j) (length_snoc seen leaf)

        root_place : shr (length seen) height ≡ 0
        root_place = omega (arith, shr-lt_pow (length seen) height 1 (omega arith))

    insert_all-node :
        (seen leaves frontier : List Fr) (r : Fr)
        → length seen + length leaves ≤ 2 ^ 32
        → length seen + length leaves ≤ 2 ^ height
        → All (λ x. x < field_order) leaves
        → Inserted seen height frontier r
        → insert_all poseidon2_hash height zs (length seen) frontier r leaves
          ≡ node (hash poseidon2_hash) (seen ++ leaves) height 0
    unfolding insert_all
    insert_all-node seen [] frontier r small fits canonical inv = rw append-nil inv.top
    insert_all-node seen (leaf ∷ leaves) frontier r small fits (hl, canonical) inv =
        let reduced : reduce_mod leaf ≡ leaf = omega arith in
        let climbed = climb-Inserted seen frontier leaf r (omega arith) (omega arith) inv in
        let (frontier', r') = climb poseidon2_hash zs (length seen) height 0 frontier leaf in
        rw reduced (
          ap (λ (t : ℕ). insert_all poseidon2_hash height zs t frontier' r' leaves)
            (sym (length_snoc seen leaf))
          ∙ insert_all-node (seen ++ leaf ∷ []) leaves frontier' r'
              (omega (arith, length_snoc seen leaf)) (omega (arith, length_snoc seen leaf))
              canonical
              (next-Inserted seen frontier leaf (frontier', r') (omega arith) climbed
                (Holds-append seen leaf height frontier inv.holds))
          ∙ ap (λ (t : List Fr). node (hash poseidon2_hash) t height 0)
              (append_assoc seen (leaf ∷ []) leaves))

-- `rebuildRoot` of the indexer is the root of the SDK's tree, for canonical leaves, at most 2^24 of
-- them: the frontier algorithm and the layers agree, whatever `poseidon2Hash` is.
pub rebuild_root-root :
    (poseidon2_hash : List Fr → Fr) (leaves : List Fr)
    → length leaves ≤ 2 ^ depth
    → All (λ x. x < field_order) leaves
    → rebuild_root poseidon2_hash leaves depth ≡ root (hash_pair poseidon2_hash) leaves
unfolding rebuild_root
rebuild_root-root poseidon2_hash [] fits canonical =
    compute_zeros-zeros poseidon2_hash depth depth (omega arith)
    ∙ sym (node-nil (hash poseidon2_hash) depth 0)
    ∙ sym (root-node (hash poseidon2_hash) [])
rebuild_root-root poseidon2_hash (leaf ∷ leaves) fits canonical =
    let zs = compute_zeros poseidon2_hash depth in
    let start : Inserted poseidon2_hash [] depth (replicate depth 0) (get_or zs depth 0) = record {
      size = refl;
      holds = λ j le lt odd. absurd (omega (arith, shr-zero j));
      top =
          compute_zeros-zeros poseidon2_hash depth depth (omega arith)
          ∙ sym (node-nil (hash poseidon2_hash) depth 0);
    } in
    rw (suc_ne_zero (length leaves)) (
      insert_all-node poseidon2_hash zs depth (compute_zeros-zeros poseidon2_hash depth) []
        (leaf ∷ leaves) (replicate depth 0) (get_or zs depth 0) (omega arith) (omega arith)
        canonical start)
    ∙ sym (root-node (hash poseidon2_hash) (leaf ∷ leaves))
