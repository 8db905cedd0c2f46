-- ===== src/Base/Members.antt =====
-- What stands in a mapped list, and what `any` finds.
use Prim.Native.Nat.{ℕ}
use mathlib.Core.Path.{◌≡◌, refl, sym, ap, ◌∙◌}
use mathlib.Core.Option.{some}
use mathlib.Core.Logic.{◌≢◌, inl, inr}
use mathlib.Core.Bool.{Bool, true, false}
use mathlib.Core.List.{List, [], ◌∷◌, map}
use native.Mathlib.Omega.{arith}
use eventmesh.Base.Tests.{◌==◌, ==_iff, Bool-cases}
use eventmesh.Base.Lists.{Has, any, find}
use eventmesh.Base.Rows.{Keyed, All-Has, if_true, if_false}

pub Has-map :
    {A B : Type 0} (f : A → B) (b : B) (xs : List A)
    → Has b (map f xs)
    → (a : A) × Has a xs × (f a ≡ b)
Has-map f b [] m = absurd m
Has-map f b (x ∷ xs) (inl e) = (x, inl refl, sym e)
Has-map f b (x ∷ xs) (inr m) = let (a, n, e) = Has-map f b xs m in (a, inr n, e)

pub Has-map_of : {A B : Type 0} (f : A → B) (a : A) (xs : List A) → Has a xs → Has (f a) (map f xs)
Has-map_of f a [] m = absurd m
Has-map_of f a (x ∷ xs) (inl e) = inl (ap f e)
Has-map_of f a (x ∷ xs) (inr m) = inr (Has-map_of f a xs m)

pub Has-any :
    {A : Type 0} (p : A → Bool) (xs : List A) → any p xs ≡ true → (a : A) × Has a xs × (p a ≡ true)
Has-any p [] h = cc h
Has-any p (x ∷ xs) h = elim (Bool-cases (p x)) [
  | inl e ↦ (x, inl refl, e)
  | inr f ↦ let (a, m, t) = Has-any p xs (ground arith) in (a, inr m, t)
]

pub any-Has :
    {A : Type 0} (p : A → Bool) (xs : List A) (a : A) → Has a xs → p a ≡ true → any p xs ≡ true
any-Has p [] a m t = absurd m
any-Has p (x ∷ xs) a (inl e) t = ground (arith, ap p e)
any-Has p (x ∷ xs) a (inr m) t = ground (arith, any-Has p xs a m t)

-- A row is found by its key, if no other row has it.
pub find-Keyed :
    {A : Type 0} (key : A → ℕ) (xs : List A) (a : A)
    → Keyed key xs
    → Has a xs
    → find (λ x. key x == key a) xs ≡ some a
find-Keyed key [] a k m = absurd m
find-Keyed key (x ∷ xs) a k (inl e) =
    if_true _ _ ((==_iff (key x) (key a)).1 (ap key (sym e))) ∙ ap some (sym e)
find-Keyed key (x ∷ xs) a k (inr m) =
    let differs = All-Has (λ y. key x ≢ key y) xs k.0 m in
    let other : (key x == key a) ≡ false = ground (arith, differs) in
    if_false _ _ other ∙ find-Keyed key xs a k.1 m
