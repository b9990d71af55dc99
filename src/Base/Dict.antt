-- ===== src/Base/Dict.antt =====
-- A JavaScript object used as a map from strings: a write to a key that is there keeps its place,
-- another is added at the end.
use mathlib.Core.Path.{◌≡◌, refl}
use mathlib.Core.Logic.{inl, inr}
use mathlib.Core.List.{List, [], ◌∷◌}
use mathlib.Core.Option.{Option, none, some}
use native.Mathlib.Omega.{arith}
use nido.Base.Lists.{All}
use nido.Base.Tests.{if◌then◌else◌, Bool-cases}
use nido.Base.Decimal.{Text}
use nido.Base.Texts.{same_text, same_text-cases}

abbrev pub Dict {ℓ} : Type ℓ → Type ℓ
Dict V = List (Text × V)

module _ {ℓ} {V : Type ℓ} where
  unfoldable pub lookup : Text → Dict V → Option V
  lookup key [] = none
  lookup key ((k, v) ∷ d) = let rest = lookup key d in if same_text k key then some v else rest

  unfoldable pub insert : Text → V → Dict V → Dict V
  insert key v [] = (key, v) ∷ []
  insert key v ((k, w) ∷ d) =
      let rest = insert key v d in if same_text k key then (k, v) ∷ d else (k, w) ∷ rest

  unfoldable pub values : Dict V → List V
  values [] = []
  values ((k, v) ∷ d) = v ∷ values d

  pub lookup-insert :
      (key j : Text) (v : V) (d : Dict V)
      → lookup j (insert key v d) ≡ (if same_text key j then some v else lookup j d)
  unfolding lookup insert
  lookup-insert key j v [] = refl
  lookup-insert key j v ((k, w) ∷ d) = elim (same_text-cases k key) [
    | inl (same, e) ↦ rw (same, e) (ground arith)
    | inr (other, n) ↦ rw other (elim (same_text-cases k j) [
      | inr (far, m) ↦ rw far (lookup-insert key j v d)
      | inl (near, e) ↦ elim (same_text-cases key j) [
        | inl (hit, e') ↦ absurd (n (cc))
        | inr (miss, m) ↦ rw (near, miss) refl
      ]
    ])
  ]

  -- What every value of a map satisfies still holds when a value that satisfies it is written.
  pub All-values-insert {κ} :
      (P : V → Type κ) (key : Text) (v : V) (d : Dict V)
      → P v
      → All P (values d)
      → All P (values (insert key v d))
  unfolding values insert
  All-values-insert P key v [] p h = (p, tt)
  All-values-insert P key v ((k, w) ∷ d) p (q, h) = elim (Bool-cases (same_text k key)) [
    | inl same ↦ rw same (p, h)
    | inr other ↦ rw other (q, All-values-insert P key v d p h)
  ]
