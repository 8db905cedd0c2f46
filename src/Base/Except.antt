-- ===== src/Base/Except.antt =====
-- What a function returns that may raise: its value, or the exception that was raised instead.
use mathlib.Core.Bool.{Bool, true, false}
use mathlib.Core.Path.{◌≡◌, refl}
use mathlib.Core.Logic.{◌⊎◌, inl, inr}

pub data Result {ℓ κ} (E : Type ℓ) (A : Type κ) : Type (ℓ ⊔ κ) where
  err : E → Result E A
  ok : A → Result E A

-- A statement that returns nothing, then the rest of the function.
infixl 5 ◌>>◌
abbrev pub ◌>>◌ : {E A : Type 0} → Result E (Unit {0}) → Result E A → Result E A
err e >> rest = err e
ok _ >> rest = rest

-- `if test: raise e`
abbrev pub raise_if : {E : Type 0} → Bool → E → Result E (Unit {0})
raise_if test e = elim test [ true ↦ err e | false ↦ ok tt ]

-- If the whole function returned, then so did the statement and the rest.
pub >>-ok :
    {E A : Type 0} (statement : Result E (Unit {0})) (rest : Result E A) {a : A}
    → (statement >> rest) ≡ ok a
    → (statement ≡ ok tt) × (rest ≡ ok a)
>>-ok (err e) rest h = cc
>>-ok (ok _) rest h = (refl, h)

-- So a test before it did not raise.
pub raise_if-ok :
    {E A : Type 0} (test : Bool) (e : E) (rest : Result E A) {a : A}
    → (raise_if test e >> rest) ≡ ok a
    → (test ≡ false) × (rest ≡ ok a)
raise_if-ok false e rest h = (refl, h)
raise_if-ok true e rest h = cc

pub Result-cases :
    {E A : Type 0} (r : Result E A) → ((e : E) × (r ≡ err e)) ⊎ ((a : A) × (r ≡ ok a))
Result-cases (err e) = inl (e, refl)
Result-cases (ok a) = inr (a, refl)
