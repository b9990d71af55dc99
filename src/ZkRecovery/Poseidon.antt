-- ===== src/ZkRecovery/Poseidon.antt =====
-- packages/passkey-sdk/src/zkRecovery/poseidon.ts. `poseidon2Hash` of @zkpassport/poseidon2 is the
-- section's parameter `poseidon2_hash`.
use nido.Base.{
  ℕ, ◌+◌, ◌%◌, ◌≡◌, refl, List, [], ◌∷◌, map, Result, ok, err, ◌==◌, ◌||◌, if◌then◌else◌, length,
}
use nido.ZkRecovery.Field.{Fr, field_order}

pub data PoseidonError : Type 0 where
  unsupported_arity : ℕ → PoseidonError

abbrev pub reduce : ℕ → Fr
reduce x = (x % field_order + field_order) % field_order

module _ (poseidon2_hash : List Fr → Fr) where
  unfoldable pub p2 : List Fr → Result PoseidonError Fr
  p2 inputs =
      if length inputs == 2 || length inputs == 4 || length inputs == 15
      then ok (poseidon2_hash (map reduce inputs))
      else err (unsupported_arity (length inputs))

  -- `p2([a, b])`, which does not throw.
  unfoldable pub hash_pair : Fr → Fr → Fr
  hash_pair a b = poseidon2_hash (reduce a ∷ reduce b ∷ [])

  pub p2-hash_pair : (a b : Fr) → p2 (a ∷ b ∷ []) ≡ ok (hash_pair a b)
  unfolding p2 hash_pair
  p2-hash_pair a b = refl
