-- ===== src/Base/Texts.antt =====
-- Texts as keys: `===`, `includes` of an array of strings, and the codes of a literal.
use Prim.Native.Char.{code}
use Prim.Native.String.{String}
use mathlib.Core.Path.{◌≡◌, refl, sym}
use mathlib.Core.Logic.{◌≢◌, ◌↔◌, ◌⊎◌, inl, inr}
use mathlib.Core.Bool.{Bool, true, false, ◌&&◌, ◌||◌}
use mathlib.Core.List.{List, [], ◌∷◌}
use native.Mathlib.Omega.{arith}
use nido.Base.Lists.{Elem}
use nido.Base.Tests.{◌==◌, Bool-cases}
use nido.Base.Decimal.{Text}

abbrev pub codes : String → Text
codes String.[] = []
codes (String.◌∷◌ c s) = code c ∷ codes s

abbrev pub same_text : Text → Text → Bool
same_text [] [] = true
same_text [] (y ∷ t) = false
same_text (x ∷ s) [] = false
same_text (x ∷ s) (y ∷ t) = x == y && same_text s t

pub same_text-eq : (s t : Text) → same_text s t ≡ true → s ≡ t
same_text-eq [] [] h = refl
same_text-eq [] (y ∷ t) h = cc
same_text-eq (x ∷ s) [] h = cc
same_text-eq (x ∷ s) (y ∷ t) h = ground (arith, same_text-eq s t)

pub same_text_refl : (s : Text) → same_text s s ≡ true
same_text_refl [] = refl
same_text_refl (x ∷ s) = ground (arith, same_text_refl s)

pub same_text-ne : (s t : Text) → same_text s t ≡ false → s ≢ t
same_text-ne s t h e = let clash : same_text s t ≡ true = rw e (same_text_refl t) in cc

-- To split on whether two texts are one.
pub same_text-cases :
    (s t : Text) → ((same_text s t ≡ true) × (s ≡ t)) ⊎ ((same_text s t ≡ false) × (s ≢ t))
same_text-cases s t = elim (Bool-cases (same_text s t)) [
  | inl same ↦ inl (same, same_text-eq s t same)
  | inr other ↦ inr (other, same_text-ne s t other)
]

abbrev pub has : List Text → Text → Bool
has [] name = false
has (f ∷ fs) name = same_text f name || has fs name

pub has-Elem : (fs : List Text) (name : Text) → has fs name ≡ true → Elem name fs
has-Elem [] name h = absurd (cc)
has-Elem (f ∷ fs) name h = elim (Bool-cases (same_text f name)) [
  | inl same ↦ inl (sym (same_text-eq f name same))
  | inr other ↦ inr (has-Elem fs name (rw other at h))
]

pub Elem-has : (fs : List Text) (name : Text) → Elem name fs → has fs name ≡ true
Elem-has [] name m = absurd m
Elem-has (f ∷ fs) name (inl e) = rw (e, same_text_refl f) refl
Elem-has (f ∷ fs) name (inr m) = elim (Bool-cases (same_text f name)) [
  | inl same ↦ rw same refl
  | inr other ↦ rw other (Elem-has fs name m)
]

pub has_iff : (fs : List Text) (name : Text) → (has fs name ≡ true) ↔ Elem name fs
has_iff fs name = (has-Elem fs name, Elem-has fs name)
