-- ===== src/ZkRecovery/Merkle/Binding.antt =====
-- A root binds what is opened under it: two openings at one index agree, or they hash two different
-- pairs to one value at some level.
use native.Mathlib.Decide.{ℕ_discrete}
use nido.Base.{
  ℕ, suc, ◌<◌, ◌≡◌, ◌≢◌, ◌⊎◌, inl, inr, refl, List, [], ◌∷◌, length, get_elem?, some, ok, ◌==◌,
  if◌then◌else◌, Bool-cases, arith,
}
use nido.ZkRecovery.Field.{Fr, field_order}
use nido.ZkRecovery.Merkle.{compute_from, compute_root, bit_at}

abbrev pub IsCanonical : Fr → Type 0
IsCanonical x = x < field_order

module _ (hash : Fr → Fr → Fr) where
  -- The left and the right child of each level of an opening, from `level` up.
  unfoldable pub children : ℕ → ℕ → List Fr → Fr → List (Fr × Fr)
  children index level [] cur = []
  children index level (sib ∷ siblings) cur =
      if bit_at index level == 0
      then (cur, sib) ∷ children index (suc level) siblings (hash cur sib)
      else (sib, cur) ∷ children index (suc level) siblings (hash sib cur)

  -- At one level two lists of children have two different pairs with one hash.
  pub record CollisionIn (path path' : List (Fr × Fr)) : Type 0 where
    pub level : ℕ
    pub pair : Fr × Fr
    pub pair' : Fr × Fr
    pub here : get_elem? path level ≡ some pair
    pub here' : get_elem? path' level ≡ some pair'
    pub different : (pair.0 ≢ pair'.0) ⊎ (pair.1 ≢ pair'.1)
    pub same_hash : hash pair.0 pair.1 ≡ hash pair'.0 pair'.1

  CollisionIn-next :
      (p q : Fr × Fr) (path path' : List (Fr × Fr))
      → CollisionIn path path'
      → CollisionIn (p ∷ path) (q ∷ path')
  CollisionIn-next p q path path' c = record {
    level = suc c.level;
    pair = c.pair;
    pair' = c.pair';
    here = c.here;
    here' = c.here';
    different = c.different;
    same_hash = c.same_hash;
  }

  -- Equal hashes come from equal pairs, or from a collision at the first level.
  unhash :
      (a b c d : Fr) (path path' : List (Fr × Fr))
      → hash a b ≡ hash c d
      → ((a ≡ c) × (b ≡ d)) ⊎ CollisionIn ((a, b) ∷ path) ((c, d) ∷ path')
  unhash a b c d path path' e = elim (ℕ_discrete a c) [
    | no n ↦ inr (record {
      level = 0;
      pair = (a, b);
      pair' = (c, d);
      here = refl;
      here' = refl;
      different = inl n;
      same_hash = e;
    })
    | yes p ↦ elim (ℕ_discrete b d) [
      | no n ↦ inr (record {
        level = 0;
        pair = (a, b);
        pair' = (c, d);
        here = refl;
        here' = refl;
        different = inr n;
        same_hash = e;
      })
      | yes q ↦ inl (p, q)
    ]
  ]

  compute_from-binding :
      (index level : ℕ) (siblings siblings' : List Fr) (a b : Fr)
      → length siblings ≡ length siblings'
      → compute_from hash index level siblings a ≡ compute_from hash index level siblings' b
      → ((a ≡ b) × (siblings ≡ siblings'))
        ⊎ CollisionIn (children index level siblings a) (children index level siblings' b)
  unfolding compute_from children
  compute_from-binding index level [] [] a b len e = inl (e, refl)
  compute_from-binding index level [] (x ∷ t) a b len e = absurd (omega arith)
  compute_from-binding index level (x ∷ t) [] a b len e = absurd (omega arith)
  compute_from-binding index level (x ∷ t) (y ∷ u) a b len e =
      elim (Bool-cases (bit_at index level == 0)) [
        | inl left ↦
            rw (children, left)
              (elim (compute_from-binding index (suc level) t u (hash a x) (hash b y) (omega arith)
                (rw (compute_from, left) at e)) [
                  | inr c ↦ inr (CollisionIn-next (a, x) (b, y) _ _ c)
                  | inl same ↦ elim (unhash a x b y _ _ (same.0)) [
                    | inr c ↦ inr c
                    | inl (p, q) ↦ inl (p, cc (same.1))
                  ]
                ])
        | inr right ↦
            rw (children, right)
              (elim (compute_from-binding index (suc level) t u (hash x a) (hash y b) (omega arith)
                (rw (compute_from, right) at e)) [
                  | inr c ↦ inr (CollisionIn-next (x, a) (y, b) _ _ c)
                  | inl same ↦ elim (unhash x a y b _ _ (same.0)) [
                    | inr c ↦ inr c
                    | inl (p, q) ↦ inl (q, cc (same.1))
                  ]
                ])
      ]

  -- Two openings at one index that `computeRoot` takes to one root have the same leaf and the same
  -- siblings, or else there is a level at which the two hash different pairs to one value.
  pub compute_root_binding :
      (index : ℕ) (siblings siblings' : List Fr) (a b r : Fr)
      → compute_root hash a index siblings ≡ ok r
      → compute_root hash b index siblings' ≡ ok r
      → ((a ≡ b) × (siblings ≡ siblings'))
        ⊎ CollisionIn (children index 0 siblings a) (children index 0 siblings' b)
  unfolding compute_root
  compute_root_binding index siblings siblings' a b r p q =
      compute_from-binding index 0 siblings siblings' a b (ground arith) (ground arith)
