-- ===== src/ZkRecovery/PoolSync/Witness.antt =====
-- The witness that `locateLeaf` returns opens the root that `rebuildRoot` computes.
use nido.Base.{
  ℕ, ◌+◌, ◌^◌, ◌<◌, ◌≤◌, ◌≡◌, sym, ap, ◌∙◌, inl, inr, List, [], ◌∷◌, ◌++◌, map, Option, none, some,
  ok, if◌then◌else◌, length, get_or, get_or-append_last, get_or-append_left, length-append, up_from,
  Bool-cases, arith, >>=-ok,
}
use mathlib.Core.Path.{subst}
use nido.ZkRecovery.Field.{Fr, Bytes, bytes_to_field_canonical}
use nido.ZkRecovery.Merkle
use nido.ZkRecovery.Merkle.{bit_at, compute_root, root, insert, path_for}
use nido.ZkRecovery.Merkle.Paths.{compute_root-path_for}
use nido.ZkRecovery.PoolSync.{
  Leaf, bytes_equal, merge_leaves, lift_field, insert_leaves, locate_from, Located, rebuild_root,
  witness_at, locate_leaf,
}
use nido.ZkRecovery.PoolSync.Collect.{bytes_equal_iff}
use nido.ZkRecovery.PoolSync.Merge.{length-merge_leaves}

-- The index found so far is one of the tree, with the field element of `mine`.
abbrev Tracks : Bytes → List Fr → Option ℕ → Type 0
Tracks mine tree none = Unit
Tracks mine tree (some i) =
    (i < length tree) × (bytes_to_field_canonical mine ≡ ok (get_or tree i 0))

Tracks-insert :
    (mine : Bytes) (tree : List Fr) (found : Option ℕ) (leaf : Bytes) (x : Fr)
    → Tracks mine tree found
    → bytes_to_field_canonical leaf ≡ ok x
    → Tracks mine (tree ++ x ∷ []) (if bytes_equal leaf mine then some (length tree) else found)
Tracks-insert mine tree found leaf x t parsed = elim (Bool-cases (bytes_equal leaf mine)) [
  | inl same ↦
      let equal = (bytes_equal_iff leaf mine).0 same in
      rw same (
        omega (arith, length-append tree (x ∷ [])),
        rw (get_or-append_last tree x 0) (rw (← equal) parsed),
      )
  | inr other ↦ rw other (old found t)
]
  where
    old : (found : Option ℕ) → Tracks mine tree found → Tracks mine (tree ++ x ∷ []) found
    old none t = tt
    old (some i) (lt, p) =
        (omega (arith, length-append tree (x ∷ [])), rw (get_or-append_left tree (x ∷ []) i 0 lt) p)

lift_field-eq-ok :
    (leaf : Bytes) (x : Fr)
    → lift_field (bytes_to_field_canonical leaf) ≡ ok x
    → bytes_to_field_canonical leaf ≡ ok x
lift_field-eq-ok leaf x h = ground arith

-- `locateLeaf` builds the tree of `rebuildRoot`, and finds only where `mine` stands.
locate_from-Tracks :
    (mine : Bytes) (leaves : List Leaf) (tree tree' : List Fr) (found found' : Option ℕ)
    → Tracks mine tree found
    → locate_from mine leaves tree found ≡ ok (tree', found')
    → (insert_leaves leaves tree ≡ ok tree')
      × Tracks mine tree' found'
      × (length tree' ≡ length tree + length leaves)
unfolding locate_from insert_leaves insert
locate_from-Tracks mine [] tree tree' found found' t h =
    let same_tree : tree ≡ tree' = cc in
    let same_found : found ≡ found' = cc in
    (ap ok same_tree, rw (← same_tree, ← same_found) t, rw (← same_tree) (omega arith))
locate_from-Tracks mine (l ∷ leaves) tree tree' found found' t h =
    let (x, parsed, rest) = >>=-ok (lift_field (bytes_to_field_canonical l.leaf)) _ h in
    let (built, tracked, count) =
      locate_from-Tracks mine leaves (tree ++ x ∷ []) tree' _ found'
        (Tracks-insert mine tree found l.leaf x t (lift_field-eq-ok l.leaf x parsed)) rest in
    (rw parsed built, tracked, omega (arith, length-append tree (x ∷ [])))

-- A witness comes from a found index and its path.
witness_at-eq-ok :
    (hash : Fr → Fr → Fr) (tree : List Fr) (found : Option ℕ) (w : Located)
    → witness_at hash tree found ≡ ok (some w)
    → (found ≡ some w.index)
      × (path_for hash tree w.index ≡ ok (record { siblings = w.siblings; bits = w.bits }))
unfolding witness_at
witness_at-eq-ok hash tree none w h = cc
witness_at-eq-ok hash tree (some i) w h = ground arith

-- When `locateLeaf` returns a witness, and at most 2^24 leaves were given, the caller's bytes are a
-- canonical field element, and `computeRoot` of it along the witness is the root that `rebuildRoot`
-- computes from the same leaves; the witness's bits are those of its index.
pub compute_root-locate_leaf :
    (hash : Fr → Fr → Fr) (leaves : List Leaf) (mine : Bytes) (w : Located)
    → length leaves ≤ 2 ^ Merkle.depth
    → locate_leaf hash leaves mine ≡ ok (some w)
    → (leaf : Fr) × (r : Fr) × (bytes_to_field_canonical mine ≡ ok leaf)
      × (rebuild_root hash leaves ≡ ok r)
      × (compute_root hash leaf w.index w.siblings ≡ ok r)
      × (w.bits ≡ map (bit_at w.index) (up_from Merkle.depth 0))
unfolding locate_leaf rebuild_root witness_at
compute_root-locate_leaf hash leaves mine w fits h =
    let (merged, hm, rest) = >>=-ok (merge_leaves [] leaves) _ h in
    let (located, hl, last) = >>=-ok (locate_from mine merged [] none) _ rest in
    let (built, tracked, count) =
      locate_from-Tracks mine merged [] located.0 none located.1 tt hl in
    let (found, path) = witness_at-eq-ok hash located.0 located.1 w last in
    let (inside, parsed) = subst (λ (o : Option ℕ). Tracks mine located.0 o) found tracked in
    let (p, path', bits, opens) =
      compute_root-path_for hash located.0 w.index inside
        (omega (arith, length-merge_leaves [] leaves merged hm)) in
    let same : ok p ≡ ok (record { siblings = w.siblings; bits = w.bits }) = sym path' ∙ path in
    (get_or located.0 w.index 0, root hash located.0, parsed, rw (hm, built), cc, cc)
