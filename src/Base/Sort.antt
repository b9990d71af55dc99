-- ===== src/Base/Sort.antt =====
-- The stable ascending sort of the language by a numeric key, as an insertion sort.
use Prim.Native.Nat.{ℕ, ◌≤◌}
use mathlib.Core.Path.{◌≡◌, refl}
use mathlib.Core.Logic.{◌↔◌, ◌⊎◌, inl, inr}
use mathlib.Core.List.{List, [], ◌∷◌}
use native.Mathlib.Omega.{arith}
use nido.Base.Lists.{All, Elem}
use nido.Base.Tests.{leb, if◌then◌else◌, Bool-cases, leb→le}

module _ {A : Type 0} (key : A → ℕ) where
  unfoldable pub insert_by : A → List A → List A
  insert_by x [] = x ∷ []
  insert_by x (y ∷ ys) = if leb (key x) (key y) then x ∷ y ∷ ys else y ∷ insert_by x ys

  unfoldable pub sort_by : List A → List A
  sort_by [] = []
  sort_by (x ∷ xs) = insert_by x (sort_by xs)

  abbrev pub IsAscending : List A → Type 0
  IsAscending [] = Unit
  IsAscending (x ∷ xs) = All (λ y. key x ≤ key y) xs × IsAscending xs

  All-insert_by : (P : A → Type 0) (x : A) (xs : List A) → P x → All P xs → All P (insert_by x xs)
  unfolding insert_by
  All-insert_by P x [] p h = (p, tt)
  All-insert_by P x (y ∷ ys) p (q, h) = elim (Bool-cases (leb (key x) (key y))) [
    | inl e ↦ rw e (p, (q, h))
    | inr e ↦ rw e (q, All-insert_by P x ys p h)
  ]

  pub All-sort_by : (P : A → Type 0) (xs : List A) → All P xs → All P (sort_by xs)
  unfolding sort_by
  All-sort_by P [] h = h
  All-sort_by P (x ∷ xs) (p, h) = All-insert_by P x (sort_by xs) p (All-sort_by P xs h)

  above :
      (x y : A) (ys : List A)
      → key x ≤ key y
      → All (λ z. key y ≤ key z) ys
      → All (λ z. key x ≤ key z) ys
  above x y [] h k = tt
  above x y (z ∷ ys) h (k, ks) = (omega arith, above x y ys h ks)

  insert_by-IsAscending : (x : A) (xs : List A) → IsAscending xs → IsAscending (insert_by x xs)
  unfolding insert_by
  insert_by-IsAscending x [] h = (tt, tt)
  insert_by-IsAscending x (y ∷ ys) (h, k) = elim (Bool-cases (leb (key x) (key y))) [
    | inl e ↦ let le = leb→le (key x) (key y) e in rw e ((le, above x y ys le h), (h, k))
    | inr e ↦
        rw e
          (All-insert_by (λ z. key y ≤ key z) x ys (ground arith) h, insert_by-IsAscending x ys k)
  ]

  pub sort_by-IsAscending : (xs : List A) → IsAscending (sort_by xs)
  unfolding sort_by
  sort_by-IsAscending [] = tt
  sort_by-IsAscending (x ∷ xs) = insert_by-IsAscending x (sort_by xs) (sort_by-IsAscending xs)

  Elem-insert_by : (a x : A) (xs : List A) → Elem a (insert_by x xs) ↔ ((a ≡ x) ⊎ Elem a xs)
  unfolding insert_by
  Elem-insert_by a x [] = ((λ h. h), λ h. h)
  Elem-insert_by a x (y ∷ ys) = elim (Bool-cases (leb (key x) (key y))) [
    | inl e ↦ rw e ((λ h. h), λ h. h)
    | inr e ↦
        let (to, from) = Elem-insert_by a x ys in
        rw e (
          λ h. elim h [
            | inl p ↦ inr (inl p)
            | inr q ↦ elim (to q) [ inl p ↦ inl p | inr r ↦ inr (inr r) ]
          ],
          λ h. elim h [
            | inl p ↦ inr (from (inl p))
            | inr q ↦ elim q [ inl p ↦ inl p | inr r ↦ inr (from (inr r)) ]
          ],
        )
  ]

  -- Sorting keeps exactly the members.
  pub Elem-sort_by : (a : A) (xs : List A) → Elem a (sort_by xs) ↔ Elem a xs
  unfolding sort_by
  Elem-sort_by a [] = ((λ h. h), λ h. h)
  Elem-sort_by a (x ∷ xs) =
      let (to, from) = Elem-insert_by a x (sort_by xs) in
      let (to', from') = Elem-sort_by a xs in
      (
        λ h. elim (to h) [ inl p ↦ inl p | inr q ↦ inr (to' q) ],
        λ h. from (elim h [ inl p ↦ inl p | inr q ↦ inr (from' q) ]),
      )

  Elem-All : (P : A → Type 0) (xs : List A) → All P xs → (a : A) → Elem a xs → P a
  Elem-All P [] h a m = absurd m
  Elem-All P (x ∷ xs) (p, h) a (inl e) = rw e p
  Elem-All P (x ∷ xs) (p, h) a (inr m) = Elem-All P xs h a m

  All-Elem : (P : A → Type 0) (xs : List A) → ((a : A) → Elem a xs → P a) → All P xs
  All-Elem P [] h = tt
  All-Elem P (x ∷ xs) h = (h x (inl refl), All-Elem P xs (λ a m. h a (inr m)))

  -- What holds of all that is sorted holds of all.
  pub All-of_sort_by : (P : A → Type 0) (xs : List A) → All P (sort_by xs) → All P xs
  All-of_sort_by P xs h =
      All-Elem P xs (λ a m. Elem-All P (sort_by xs) h a ((Elem-sort_by a xs).1 m))
