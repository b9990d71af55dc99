-- ===== src/PoolIndexer/Zeros.antt =====
-- The indexer's hash and its table of zeros are the SDK's.
use nido.Base.{
  ℕ, zero, suc, ◌+◌, ◌≤◌, ◌≡◌, refl, sym, ap, ◌∙◌, List, [], ◌∷◌, ◌++◌, length, length-append,
  get_or, get_or-append_left, get_or-append_last, arith, dec_lt,
}
use nido.ZkRecovery.Field.{Fr}
use nido.ZkRecovery.Poseidon.{hash_pair, reduce}
use nido.ZkRecovery.Merkle.{zeros}
use nido.PoolIndexer.Merkle.{reduce_mod, p2raw, zeros_from, compute_zeros}

module _ (poseidon2_hash : List Fr → Fr) where
  abbrev pub hash : Fr → Fr → Fr
  hash = hash_pair poseidon2_hash

  -- The indexer's hash is the SDK's: reducing once or twice is the same.
  pub p2raw-hash_pair : (a b : Fr) → p2raw poseidon2_hash a b ≡ hash a b
  unfolding p2raw hash_pair
  p2raw-hash_pair a b =
      let ea : reduce_mod a ≡ reduce a = omega arith in
      let eb : reduce_mod b ≡ reduce b = omega arith in cc

  -- The next entry of the table.
  push_zero :
      (i k : ℕ) (zs : List Fr)
      → length zs ≡ suc i
      → ((j : ℕ) → j ≤ i → get_or zs j 0 ≡ zeros hash j)
      → k ≤ suc i
      → get_or (zs ++ p2raw poseidon2_hash (get_or zs i 0) (get_or zs i 0) ∷ []) k 0 ≡ zeros hash k
  unfolding zeros
  push_zero i k zs len all h = elim (dec_lt k (suc i)) [
    | yes before ↦ get_or-append_left zs _ k 0 (omega arith) ∙ all k (omega arith)
    | no last ↦
        let z = p2raw poseidon2_hash (get_or zs i 0) (get_or zs i 0) in
        let place : k ≡ length zs = omega arith in
        let here : k ≡ suc i = omega arith in
        ap (λ (t : ℕ). get_or (zs ++ z ∷ []) t 0) place
        ∙ get_or-append_last zs z 0
        ∙ p2raw-hash_pair (get_or zs i 0) (get_or zs i 0)
        ∙ ap (λ (t : ℕ). hash t t) (all i (omega arith))
        ∙ ap (zeros hash) (sym here)
  ]

  zeros_from-zeros :
      (count i j : ℕ) (zs : List Fr)
      → length zs ≡ suc i
      → ((k : ℕ) → k ≤ i → get_or zs k 0 ≡ zeros hash k)
      → j ≤ i + count
      → get_or (zeros_from poseidon2_hash count i zs) j 0 ≡ zeros hash j
  unfolding zeros_from
  zeros_from-zeros zero i j zs len all h = all j (omega arith)
  zeros_from-zeros (suc count) i j zs len all h =
      zeros_from-zeros count (suc i) j _
        (omega
          (arith, length-append zs (p2raw poseidon2_hash (get_or zs i 0) (get_or zs i 0) ∷ [])))
        (λ k le. push_zero i k zs len all le) (omega arith)

  first_zero : (k : ℕ) → k ≤ 0 → get_or {A = Fr} (0 ∷ []) k 0 ≡ zeros hash k
  unfolding zeros
  first_zero zero h = refl
  first_zero (suc k) h = absurd (omega arith)

  -- Entry `j` of `computeZeros(height)` is the zero of level `j`.
  pub compute_zeros-zeros :
      (height j : ℕ) → j ≤ height → get_or (compute_zeros poseidon2_hash height) j 0 ≡ zeros hash j
  unfolding compute_zeros
  compute_zeros-zeros height j h =
      zeros_from-zeros height 0 j (0 ∷ []) (omega arith) first_zero (omega arith)
