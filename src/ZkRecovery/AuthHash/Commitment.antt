-- ===== src/ZkRecovery/AuthHash/Commitment.antt =====
-- authHash.ts: what the hashes commit to. A disagreement shows two different lists of canonical
-- elements with one Poseidon2 hash.
use native.Mathlib.Decide.{ℕ_discrete}
use mathlib.Core.List.{List-discrete}
use nido.Base.{◌≡◌, ◌≢◌, ◌⊎◌, inl, inr, refl, List, [], ◌∷◌, map, ok, length, All, arith}
use nido.Base.Decimal.{Text}
use nido.ZkRecovery.Field.{Fr, Bytes, IsBytes, dom_bind, dom_null}
use nido.ZkRecovery.Field.Split.{high, low, split16_lem, high-lt, low-lt, halves_injective}
use nido.ZkRecovery.Poseidon.{p2, reduce}
use nido.ZkRecovery.AuthHash.{
  AuthHashParams, compute_auth_hash, compute_nullifier, wrap_leaf_stored,
}
use nido.ZkRecovery.AuthHash.Preimage.{
  IsCall, IsSameCall, preimage, auth_inputs_lem, preimage-IsCanonical, preimage-injective,
}
use nido.ZkRecovery.Merkle.Binding.{IsCanonical}

pub record HashCollision (poseidon2_hash : List Fr → Fr) : Type 0 where
  pub left : List Fr
  pub right : List Fr
  pub canonical : All IsCanonical left × All IsCanonical right
  pub different : left ≢ right
  pub same_hash : poseidon2_hash left ≡ poseidon2_hash right

map-reduce : (xs : List Fr) → All IsCanonical xs → map reduce xs ≡ xs
map-reduce [] h = refl
map-reduce (x ∷ xs) (hx, h) = let same : reduce x ≡ x = omega arith in cc (same, map-reduce xs h)

module _ (poseidon2_hash : List Fr → Fr) where
  p2_lem :
      (xs : List Fr)
      → All IsCanonical xs
      → (length xs ≡ 2) ⊎ ((length xs ≡ 4) ⊎ (length xs ≡ 15))
      → p2 poseidon2_hash xs ≡ ok (poseidon2_hash xs)
  unfolding p2
  p2_lem xs h n = rw (map-reduce xs h) (ground arith)

  unhash :
      (xs ys : List Fr)
      → All IsCanonical xs
      → All IsCanonical ys
      → poseidon2_hash xs ≡ poseidon2_hash ys
      → (xs ≡ ys) ⊎ HashCollision poseidon2_hash
  unhash xs ys hx hy e = elim (List-discrete ℕ_discrete xs ys) [
    | yes same ↦ inl same
    | no n ↦
        inr (record { left = xs; right = ys; canonical = (hx, hy); different = n; same_hash = e })
  ]

  compute_nullifier_lem :
      (account : Bytes) (secret : Fr)
      → IsBytes account
      → length account ≡ 32
      → IsCanonical secret
      → compute_nullifier poseidon2_hash account secret
        ≡ ok (poseidon2_hash (dom_null ∷ high account ∷ low account ∷ secret ∷ []))
  unfolding compute_nullifier
  compute_nullifier_lem account secret b h s =
      rw
        (
          split16_lem account h,
          p2_lem (dom_null ∷ high account ∷ low account ∷ secret ∷ [])
              (omega (arith, s, high-lt account b h, low-lt account b h)) (inr (inl refl)),
        )
        refl

  wrap_leaf_stored_lem :
      (account : Bytes) (inner : Fr)
      → IsBytes account
      → length account ≡ 32
      → IsCanonical inner
      → wrap_leaf_stored poseidon2_hash account inner
        ≡ ok (poseidon2_hash (dom_bind ∷ high account ∷ low account ∷ inner ∷ []))
  unfolding wrap_leaf_stored
  wrap_leaf_stored_lem account inner b h s =
      rw
        (
          split16_lem account h,
          p2_lem (dom_bind ∷ high account ∷ low account ∷ inner ∷ [])
              (omega (arith, s, high-lt account b h, low-lt account b h)) (inr (inl refl)),
        )
        refl

  -- Two stored leaves are equal only for one account and one inner commitment, or there is a
  -- collision of the hash. The accounts are 32 bytes, the inner commitments canonical.
  pub wrap_leaf_stored_binding :
      (account account' : Bytes) (inner inner' : Fr)
      → IsBytes account
      → IsBytes account'
      → length account ≡ 32
      → length account' ≡ 32
      → IsCanonical inner
      → IsCanonical inner'
      → wrap_leaf_stored poseidon2_hash account inner
        ≡ wrap_leaf_stored poseidon2_hash account' inner'
      → ((account ≡ account') × (inner ≡ inner')) ⊎ HashCollision poseidon2_hash
  wrap_leaf_stored_binding account account' inner inner' b b' h h' s s' e =
      let p = wrap_leaf_stored_lem account inner b h s in
      let q = wrap_leaf_stored_lem account' inner' b' h' s' in
      elim (unhash (dom_bind ∷ high account ∷ low account ∷ inner ∷ [])
        (dom_bind ∷ high account' ∷ low account' ∷ inner' ∷ [])
        (omega (arith, s, high-lt account b h, low-lt account b h))
        (omega (arith, s', high-lt account' b' h', low-lt account' b' h')) (cc)) [
          | inl same ↦ inl (halves_injective account account' b b' h h' (cc) (cc), cc)
          | inr c ↦ inr c
        ]

  -- Two nullifiers are equal only for one account and one secret, or there is a collision of the
  -- hash. The accounts are 32 bytes, the secrets canonical.
  pub compute_nullifier_binding :
      (account account' : Bytes) (secret secret' : Fr)
      → IsBytes account
      → IsBytes account'
      → length account ≡ 32
      → length account' ≡ 32
      → IsCanonical secret
      → IsCanonical secret'
      → compute_nullifier poseidon2_hash account secret
        ≡ compute_nullifier poseidon2_hash account' secret'
      → ((account ≡ account') × (secret ≡ secret')) ⊎ HashCollision poseidon2_hash
  compute_nullifier_binding account account' secret secret' b b' h h' s s' e =
      let p = compute_nullifier_lem account secret b h s in
      let q = compute_nullifier_lem account' secret' b' h' s' in
      elim (unhash (dom_null ∷ high account ∷ low account ∷ secret ∷ [])
        (dom_null ∷ high account' ∷ low account' ∷ secret' ∷ [])
        (omega (arith, s, high-lt account b h, low-lt account b h))
        (omega (arith, s', high-lt account' b' h', low-lt account' b' h')) (cc)) [
          | inl same ↦ inl (halves_injective account account' b b' h h' (cc) (cc), cc)
          | inr c ↦ inr c
        ]

  -- A published nullifier is never a leaf of the pool: equal values show a collision of the hash,
  -- whatever the two accounts of 32 bytes, the secret and the inner commitment, both canonical.
  pub compute_nullifier-wrap_leaf_stored :
      (account account' : Bytes) (secret inner : Fr)
      → IsBytes account
      → IsBytes account'
      → length account ≡ 32
      → length account' ≡ 32
      → IsCanonical secret
      → IsCanonical inner
      → compute_nullifier poseidon2_hash account secret
        ≡ wrap_leaf_stored poseidon2_hash account' inner
      → HashCollision poseidon2_hash
  compute_nullifier-wrap_leaf_stored account account' secret inner b b' h h' s s' e =
      let p = compute_nullifier_lem account secret b h s in
      let q = wrap_leaf_stored_lem account' inner b' h' s' in
      elim (unhash (dom_null ∷ high account ∷ low account ∷ secret ∷ [])
        (dom_bind ∷ high account' ∷ low account' ∷ inner ∷ [])
        (omega (arith, s, high-lt account b h, low-lt account b h))
        (omega (arith, s', high-lt account' b' h', low-lt account' b' h')) (cc)) [
          | inl same ↦ let domains : dom_null ≡ dom_bind = cc in absurd (omega arith)
          | inr c ↦ c
        ]

module _ (poseidon2_hash : List Fr → Fr) (sha256 : Bytes → Bytes) (encode : Text → Bytes) where
  compute_auth_hash_lem :
      (p : AuthHashParams)
      → IsCall sha256 encode p
      → compute_auth_hash poseidon2_hash sha256 encode p
        ≡ ok (poseidon2_hash (preimage sha256 encode p))
  unfolding compute_auth_hash
  compute_auth_hash_lem p h =
      rw
        (
          auth_inputs_lem sha256 encode p h,
          p2_lem poseidon2_hash (preimage sha256 encode p) (preimage-IsCanonical sha256 encode p h)
              (inr (inr refl)),
        )
        refl

  -- A proof authorises one call: two calls with one authorisation hash have the same action,
  -- account, digest of the network passphrase, controller, key, nonce and timelock, or there is a
  -- collision of the hash. No key counts as 65 zero bytes, which are not a key. The arrays have the
  -- lengths of their types, and the numbers 64 bits.
  pub compute_auth_hash_binding :
      (p q : AuthHashParams)
      → IsCall sha256 encode p
      → IsCall sha256 encode q
      → compute_auth_hash poseidon2_hash sha256 encode p
        ≡ compute_auth_hash poseidon2_hash sha256 encode q
      → IsSameCall sha256 encode p q ⊎ HashCollision poseidon2_hash
  compute_auth_hash_binding p q h k e =
      let hp = compute_auth_hash_lem p h in
      let hq = compute_auth_hash_lem q k in
      elim (unhash poseidon2_hash (preimage sha256 encode p) (preimage sha256 encode q)
        (preimage-IsCanonical sha256 encode p h) (preimage-IsCanonical sha256 encode q k) (cc)) [
          | inl same ↦ inl (preimage-injective sha256 encode p q h k same)
          | inr c ↦ inr c
        ]
