-- ===== src/ZkRecovery/PoolSync/Merge.antt =====
-- What `mergeLeaves` returns: the leaves that it was given, one at each index from 0 on.
use nido.Base.{
  ℕ, zero, suc, ◌+◌, ◌<◌, ◌≤◌, ◌≡◌, refl, sym, ap, ◌∙◌, ◌⊎◌, inl, inr, ◌↔◌, List, [], ◌∷◌, ◌++◌,
  map, some, ok, ◌==◌, if◌then◌else◌, length, get_elem?, All, Elem, up_from, Bool-cases, arith,
  >>=-ok,
}
use nido.ZkRecovery.Field.{Bytes}
use nido.ZkRecovery.PoolSync.{
  Leaf, ByIndex, get, collect, keys, insert_index, sort, check_contiguous, entry, merge_leaves,
}
use nido.ZkRecovery.PoolSync.Collect.{collect-get, get-collect, length-collect}

Elem-insert_index : (a i : ℕ) (l : List ℕ) → Elem a (insert_index i l) ↔ ((a ≡ i) ⊎ Elem a l)
unfolding insert_index
Elem-insert_index a i [] = ((λ h. h), (λ h. h))
Elem-insert_index a i (j ∷ l) = ground (arith, Elem-insert_index a i l)

-- Sorting keeps the members.
Elem-sort : (a : ℕ) (l : List ℕ) → Elem a (sort l) ↔ Elem a l
unfolding sort
Elem-sort a [] = ((λ h. h), (λ h. h))
Elem-sort a (i ∷ l) = ground (arith, Elem-sort a l, Elem-insert_index a i (sort l))

check_contiguous-eq : (i : ℕ) (l : List ℕ) → check_contiguous i l ≡ ok tt → l ≡ up_from (length l) i
unfolding check_contiguous
check_contiguous-eq i [] h = refl
check_contiguous-eq i (index ∷ l) h = ground (arith, check_contiguous-eq (suc i) l)

Elem-up_from : (count start a : ℕ) → Elem a (up_from count start) → a < start + count
Elem-up_from zero start a h = absurd h
Elem-up_from (suc count) start a h = ground (arith, Elem-up_from count (suc start) a)

get_elem?-map-up_from {ℓ} :
    {A : Type ℓ} (f : ℕ → A) (count start i : ℕ)
    → i < count
    → get_elem? (map f (up_from count start)) i ≡ some (f (start + i))
get_elem?-map-up_from f zero start i h = elim h [ ]
get_elem?-map-up_from f (suc count) start zero h =
    let same : start ≡ start + 0 = omega arith in ap (λ (t : ℕ). some (f t)) same
get_elem?-map-up_from f (suc count) start (suc i) h =
    let same : suc start + i ≡ start + suc i = omega arith in
    get_elem?-map-up_from f count (suc start) i (omega arith) ∙ ap (λ (t : ℕ). some (f t)) same

Elem-keys : (k : ℕ) (m : ByIndex) → Elem k (keys m) ↔ ((b : Bytes) × (get k m ≡ some b))
unfolding get
Elem-keys k [] = ((λ h. absurd h), (λ h. let e = h.1 in cc))
Elem-keys k ((i, leaf) ∷ m) = elim (Bool-cases (i == k)) [
  | inl same ↦ ((λ h. (leaf, rw same)), (λ h. inl (ground arith)))
  | inr other ↦ (
    (λ h. elim h [
      | inl e ↦ absurd (ground arith)
      | inr later ↦ let (b, found) = (Elem-keys k m).0 later in (b, rw other found)
    ]),
    (λ h. inr ((Elem-keys k m).1 (h.0, (rw (other, if◌then◌else◌) at (h.1))))),
  )
]

All-of_Elem : (P : ℕ → Type 0) (l : List ℕ) → ((a : ℕ) → Elem a l → P a) → All P l
All-of_Elem P [] h = tt
All-of_Elem P (x ∷ l) h = (h x (inl refl), All-of_Elem P l (λ a m. h a (inr m)))

All-map_entry :
    (P : Leaf → Type 0) (f : ℕ → Leaf) (l : List ℕ) → All (λ i. P (f i)) l → All P (map f l)
All-map_entry P f [] h = tt
All-map_entry P f (x ∷ l) (p, h) = (p, All-map_entry P f l h)

All-mono : (P Q : Leaf → Type 0) (l : List Leaf) → ((x : Leaf) → P x → Q x) → All P l → All Q l
All-mono P Q [] f h = tt
All-mono P Q (x ∷ l) f (p, h) = (f x p, All-mono P Q l f h)

entry-get :
    (m : ByIndex) (k : ℕ) (b : Bytes)
    → get k m ≡ some b
    → entry m k ≡ record { index = k; leaf = b }
unfolding entry
entry-get m k b h = rw h

indices-map :
    (m : ByIndex) (n i : ℕ)
    → map (λ (l : Leaf). l.index) (map (entry m) (up_from n i)) ≡ up_from n i
unfolding entry
indices-map m zero i = refl
indices-map m (suc n) i = ap (λ (t : List ℕ). i ∷ t) (indices-map m n (suc i))

length-map-up_from : (f : ℕ → Leaf) (n i : ℕ) → length (map f (up_from n i)) ≡ n
length-map-up_from f zero i = refl
length-map-up_from f (suc n) i = ap suc (length-map-up_from f n (suc i))

-- `merged` holds the leaves of `inputs`, with no gap: entry `i` has the index `i`, every input
-- stands at its index with its bytes, and every entry is an input.
pub record IsMerged (inputs merged : List Leaf) : Type 0 where
  pub contiguous : map (λ (l : Leaf). l.index) merged ≡ up_from (length merged) 0
  pub placed : All (λ l. get_elem? merged l.index ≡ some l) inputs
  pub given : All (λ l. Elem l inputs) merged

map-entry-IsMerged :
    (inputs : List Leaf) (m : ByIndex) (n : ℕ)
    → collect inputs [] ≡ ok m
    → sort (keys m) ≡ up_from n 0
    → IsMerged inputs (map (entry m) (up_from n 0))
unfolding get
map-entry-IsMerged inputs m n hc hs = record {
  contiguous =
      indices-map m n 0 ∙ ap (λ (t : ℕ). up_from t 0) (sym (length-map-up_from (entry m) n 0));
  placed = All-mono _ _ inputs here (collect-get inputs [] m hc).0;
  given = All-map_entry _ (entry m) (up_from n 0) (All-of_Elem _ (up_from n 0) from);
}
  where
    here :
        (l : Leaf)
        → get l.index m ≡ some l.leaf
        → get_elem? (map (entry m) (up_from n 0)) l.index ≡ some l
    here l found =
        let member : Elem l.index (up_from n 0) =
          rw hs at ((Elem-sort l.index (keys m)).1 ((Elem-keys l.index m).1 (l.leaf, found))) in
        let inside : l.index < n = omega (arith, Elem-up_from n 0 l.index member) in
        let same : 0 + l.index ≡ l.index = omega arith in
        get_elem?-map-up_from (entry m) n 0 l.index inside
        ∙ ap (λ (t : ℕ). some (entry m t)) same
        ∙ ap some (entry-get m l.index l.leaf found)

    from : (i : ℕ) → Elem i (up_from n 0) → Elem (entry m i) inputs
    from i member =
        let (b, found) = (Elem-keys i m).0 ((Elem-sort i (keys m)).0 (rw hs member)) in
        elim (get-collect inputs [] m i b hc found) [
          | inl e ↦ absurd (cc)
          | inr source ↦ rw (entry-get m i b found) source
        ]

-- When `mergeLeaves` returns, the result has the leaves of `known` and `incoming` and no others: the
-- leaf at place `i` has the index `i`, every leaf given stands at its index with its bytes, and
-- every leaf returned was given.
pub merge_leaves-IsMerged :
    (known incoming merged : List Leaf)
    → merge_leaves known incoming ≡ ok merged
    → IsMerged (known ++ incoming) merged
unfolding merge_leaves
merge_leaves-IsMerged known incoming merged h =
    let (m, hc, rest) = >>=-ok (collect (known ++ incoming) []) _ h in
    let (u, hk, done) = >>=-ok (check_contiguous 0 (sort (keys m))) _ rest in
    let sorted = check_contiguous-eq 0 (sort (keys m)) hk in
    let result : map (entry m) (up_from (length (sort (keys m))) 0) ≡ merged =
      ap (map (entry m)) (sym sorted) ∙ cc in
    rw (← result) (map-entry-IsMerged (known ++ incoming) m (length (sort (keys m))) hc sorted)

length-keys : (m : ByIndex) → length (keys m) ≡ length m
length-keys [] = refl
length-keys ((i, b) ∷ m) = ap suc (length-keys m)

length-insert_index : (i : ℕ) (l : List ℕ) → length (insert_index i l) ≡ suc (length l)
unfolding insert_index
length-insert_index i [] = refl
length-insert_index i (j ∷ l) = ground (arith, length-insert_index i l)

length-sort : (l : List ℕ) → length (sort l) ≡ length l
unfolding sort
length-sort [] = refl
length-sort (i ∷ l) = omega (arith, length-insert_index i (sort l), length-sort l)

-- `mergeLeaves` returns no more leaves than it is given.
pub length-merge_leaves :
    (known incoming merged : List Leaf)
    → merge_leaves known incoming ≡ ok merged
    → length merged ≤ length (known ++ incoming)
unfolding merge_leaves
length-merge_leaves known incoming merged h =
    let (m, hc, rest) = >>=-ok (collect (known ++ incoming) []) _ h in
    let (u, hk, done) = >>=-ok (check_contiguous 0 (sort (keys m))) _ rest in
    let sorted = check_contiguous-eq 0 (sort (keys m)) hk in
    let result : map (entry m) (up_from (length (sort (keys m))) 0) ≡ merged =
      ap (map (entry m)) (sym sorted) ∙ cc in
    rw (← result) (
      omega (
        arith,
        length-map-up_from (entry m) (length (sort (keys m))) 0,
        length-sort (keys m),
        length-keys m,
        length-collect (known ++ incoming) [] m hc,
      ))
