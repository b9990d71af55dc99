-- ===== src/Base/Results.antt =====
-- A call that may throw: what it returns, or the error that it throws.
use mathlib.Core.Path.{◌≡◌, refl}
use mathlib.Core.Logic.{◌⊎◌, inl, inr}
use mathlib.Core.Bool.{Bool, true, false}
use nido.Base.Tests.{if◌then◌else◌}

pub data Result {error value} (E : Type error) (A : Type value) : Type (error ⊔ value) where
  ok : (returned : A) → Result E A
  err : (thrown : E) → Result E A

infixl 5 ◌>>=◌ ◌>>◌
abbrev pub ◌>>=◌ {error here there} :
    {E : Type error} {A : Type here} {B : Type there} (call : Result E A) (next : A → Result E B)
    → Result E B
◌>>=◌ (err thrown) next = err thrown
◌>>=◌ (ok returned) next = next returned

abbrev pub ◌>>◌ {error there} :
    {E : Type error} {B : Type there} (call : Result E (Unit {0})) (next : Result E B) → Result E B
◌>>◌ call next = call >>= λ done. next

-- When a chain returns, its first call did, and the rest went on from there.
pub >>=-ok {error here there} :
    {E : Type error} {A : Type here} {B : Type there} {result : B} (call : Result E A)
    (next : A → Result E B) (chain : (call >>= next) ≡ ok result)
    → (returned : A) × (call ≡ ok returned) × (next returned ≡ ok result)
>>=-ok (err thrown) next chain = cc
>>=-ok (ok returned) next chain = (returned, refl, chain)

-- A chain of checks that ends in a value returns that value.
pub checks-ok {error value} :
    {E : Type error} {A : Type value} (checks : Result E (Unit {0})) (x r : A)
    → (checks >> ok x) ≡ ok r
    → r ≡ x
checks-ok (err thrown) x r h = cc
checks-ok (ok done) x r h = cc

-- When a chain behind a guard returns, the guard let it through.
pub guard-ok {error value} :
    {E : Type error} {A : Type value} {returned : A} (stop : Bool) (thrown : E) (next : Result E A)
    → (if stop then err thrown else next) ≡ ok returned
    → next ≡ ok returned
guard-ok true thrown next e = cc
guard-ok false thrown next e = e

-- To split on what a call did and keep the equation.
pub Result-cases {error value} :
    {E : Type error} {A : Type value} (r : Result E A)
    → ((a : A) × (r ≡ ok a)) ⊎ ((e : E) × (r ≡ err e))
Result-cases (ok a) = inl (a, refl)
Result-cases (err e) = inr (e, refl)
