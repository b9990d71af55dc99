-- ===== src/ZkRecovery/PoolSync/Collect.antt =====
-- The first loop of `mergeLeaves`: what the map holds of the leaves that it has read.
use nido.Base.{
  ◌+◌, ◌≤◌, length-append, ℕ, ◌≡◌, refl, ap, ◌∙◌, ◌⊎◌, inl, inr, ◌↔◌, List, [], ◌∷◌, ◌++◌, none,
  some, true, ok, ◌==◌, if◌then◌else◌, length, All, Elem, Bool-cases, Option-cases, arith,
}
use nido.ZkRecovery.Field.{Bytes}
use nido.ZkRecovery.PoolSync.{Leaf, same_bytes, bytes_equal, ByIndex, get, collect}

same_bytes-eq : (a b : Bytes) → length a ≡ length b → same_bytes a b ≡ true → a ≡ b
same_bytes-eq [] [] e h = refl
same_bytes-eq [] (y ∷ b) e h = absurd (omega arith)
same_bytes-eq (x ∷ a) [] e h = absurd (omega arith)
same_bytes-eq (x ∷ a) (y ∷ b) e h = ground (arith, same_bytes-eq a b (omega arith))

same_bytes_refl : (a : Bytes) → same_bytes a a ≡ true
same_bytes_refl [] = refl
same_bytes_refl (x ∷ a) = ground (arith, same_bytes_refl a)

-- `bytesEqual` decides equality.
pub bytes_equal_iff : (a b : Bytes) → (bytes_equal a b ≡ true) ↔ (a ≡ b)
unfolding bytes_equal
bytes_equal_iff a b = (
  (λ h. same_bytes-eq a b (ground arith) (ground arith)),
  (λ e. rw e (ground (arith, same_bytes_refl b))),
)

pub get-append :
    (k i : ℕ) (leaf : Bytes) (m : ByIndex)
    → get k (m ++ (i, leaf) ∷ [])
      ≡ elim (get k m) [ none ↦ (if i == k then some leaf else none) | some b ↦ some b ]
unfolding get
get-append k i leaf [] = refl
get-append k i leaf ((j, b) ∷ m) = ground (arith, get-append k i leaf m)

-- One round: the leaf is new and is added, or it is there already with the same bytes.
collect-cons :
    (l : Leaf) (leaves : List Leaf) (m m' : ByIndex)
    → collect (l ∷ leaves) m ≡ ok m'
    → ((get l.index m ≡ none) × (collect leaves (m ++ (l.index, l.leaf) ∷ []) ≡ ok m'))
      ⊎ ((get l.index m ≡ some l.leaf) × (collect leaves m ≡ ok m'))
unfolding collect
collect-cons l leaves m m' h = elim (Option-cases (get l.index m)) [
  | inl fresh ↦ inl (fresh, rw (fresh, collect) at h)
  | inr (b, known) ↦ elim (Bool-cases (bytes_equal b l.leaf)) [
    | inl same ↦
        inr (known ∙ ap some ((bytes_equal_iff b l.leaf).0 same), rw (known, collect, same) at h)
    | inr other ↦ let clash = rw (known, collect, other) at h in cc
  ]
]

-- The map has the bytes of every leaf that was read, and all that it had before.
pub collect-get :
    (leaves : List Leaf) (m m' : ByIndex)
    → collect leaves m ≡ ok m'
    → All (λ l. get l.index m' ≡ some l.leaf) leaves
      × ((k : ℕ) (b : Bytes) → get k m ≡ some b → get k m' ≡ some b)
unfolding collect
collect-get [] m m' h = (tt, λ k b e. let same : m ≡ m' = cc in rw (← same) e)
collect-get (l ∷ leaves) m m' h = elim (collect-cons l leaves m m' h) [
  | inl (fresh, rest) ↦
      let (all, old) = collect-get leaves (m ++ (l.index, l.leaf) ∷ []) m' rest in
      (
        (old l.index l.leaf (ground (arith, get-append l.index l.index l.leaf m)), all),
        (λ k b e. old k b (ground (arith, get-append k l.index l.leaf m))),
      )
  | inr (known, rest) ↦
      let (all, old) = collect-get leaves m m' rest in ((old l.index l.leaf known, all), old)
]

-- Every entry of the map comes from a leaf that was read, or was there before.
pub get-collect :
    (leaves : List Leaf) (m m' : ByIndex) (k : ℕ) (b : Bytes)
    → collect leaves m ≡ ok m'
    → get k m' ≡ some b
    → (get k m ≡ some b) ⊎ Elem (record { index = k; leaf = b }) leaves
unfolding collect
get-collect [] m m' k b h e = inl (let same : m ≡ m' = cc in rw same e)
get-collect (l ∷ leaves) m m' k b h e = elim (collect-cons l leaves m m' h) [
  | inl (fresh, rest) ↦ elim (get-collect leaves (m ++ (l.index, l.leaf) ∷ []) m' k b rest e) [
    | inl here ↦ ground (arith, get-append k l.index l.leaf m)
    | inr later ↦ inr (inr later)
  ]
  | inr (known, rest) ↦ elim (get-collect leaves m m' k b rest e) [
    | inl before ↦ inl before
    | inr later ↦ inr (inr later)
  ]
]

-- The map gets at most one entry for each leaf.
pub length-collect :
    (leaves : List Leaf) (m m' : ByIndex)
    → collect leaves m ≡ ok m'
    → length m' ≤ length m + length leaves
unfolding collect
length-collect [] m m' h = let same : m ≡ m' = cc in rw (← same) (omega arith)
length-collect (l ∷ leaves) m m' h = elim (collect-cons l leaves m m' h) [
  | inl (fresh, rest) ↦ omega (
    arith,
    length-collect leaves (m ++ (l.index, l.leaf) ∷ []) m' rest,
    length-append m ((l.index, l.leaf) ∷ []),
  )
  | inr (known, rest) ↦ omega (arith, length-collect leaves m m' rest)
]
