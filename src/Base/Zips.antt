-- ===== src/Base/Zips.antt =====
-- Tables that are related row for row.
use mathlib.Core.Path.{◌≡◌, refl, ◌∙◌, sym}
use mathlib.Core.Logic.{◌≢◌, inl, inr}
use mathlib.Core.Bool.{Bool, true, false}
use mathlib.Core.List.{List, [], ◌∷◌}
use Prim.Native.Nat.{ℕ}
use eventmesh.Base.Tests.{Bool-cases}
use eventmesh.Base.Lists.{All, Has, select, update}
use eventmesh.Base.Rows.{Keyed, All-select}

-- The two lists have one length, and `R` holds of the elements at each place.
abbrev pub Zip : {A B : Type 0} → (A → B → Type 0) → List A → List B → Type 0
Zip R [] [] = Unit
Zip R [] (y ∷ ys) = ⊥
Zip R (x ∷ xs) [] = ⊥
Zip R (x ∷ xs) (y ∷ ys) = R x y × Zip R xs ys

pub Zip-refl : {A : Type 0} (R : A → A → Type 0) (xs : List A) → ((a : A) → R a a) → Zip R xs xs
Zip-refl R [] r = tt
Zip-refl R (x ∷ xs) r = (r x, Zip-refl R xs r)

-- A change in place, where each row that passes is changed as wanted and the others are too.
pub Zip-update :
    {A : Type 0} {R S : A → A → Type 0} (p : A → Bool) (f : A → A) (os xs : List A)
    → ((o x : A) → Has o os → R o x → p x ≡ true → S o (f x))
    → ((o x : A) → Has o os → R o x → p x ≡ false → S o x)
    → Zip R os xs
    → Zip S os (update p f xs)
Zip-update p f [] [] h k z = tt
Zip-update p f [] (x ∷ xs) h k z = absurd z
Zip-update p f (o ∷ os) [] h k z = absurd z
Zip-update p f (o ∷ os) (x ∷ xs) h k z = (
  elim (Bool-cases (p x)) [
    | inl e ↦ rw e (h o x (inl refl) z.0 e)
    | inr e ↦ rw e (k o x (inl refl) z.0 e)
  ],
  Zip-update p f os xs (λ a b m. h a b (inr m)) (λ a b m. k a b (inr m)) z.1,
)

pub Zip-map :
    {A B : Type 0} {R S : A → B → Type 0} (f : (a : A) (b : B) → R a b → S a b) (xs : List A)
    (ys : List B)
    → Zip R xs ys
    → Zip S xs ys
Zip-map f [] [] z = tt
Zip-map f [] (y ∷ ys) z = z
Zip-map f (x ∷ xs) [] z = z
Zip-map f (x ∷ xs) (y ∷ ys) z = (f x y z.0, Zip-map f xs ys z.1)

module _ {A : Type 0} (R : A → A → Type 0) where
  -- The row that a row has become.
  pub Zip-Has : (xs ys : List A) (x : A) → Zip R xs ys → Has x xs → (y : A) × Has y ys × R x y
  Zip-Has [] ys x z m = absurd m
  Zip-Has (a ∷ xs) [] x z m = absurd z
  Zip-Has (a ∷ xs) (b ∷ ys) x z (inl e) = (b, inl refl, rw e z.0)
  Zip-Has (a ∷ xs) (b ∷ ys) x z (inr m) = let (y, n, r) = Zip-Has xs ys x z.1 m in (y, inr n, r)

  pub Zip-All :
      {P Q : A → Type 0} (xs ys : List A)
      → ((x y : A) → R x y → P x → Q y)
      → Zip R xs ys
      → All P xs
      → All Q ys
  Zip-All [] [] f z h = tt
  Zip-All [] (y ∷ ys) f z h = absurd z
  Zip-All (x ∷ xs) [] f z h = absurd z
  Zip-All (x ∷ xs) (y ∷ ys) f z h = (f x y z.0 h.0, Zip-All xs ys f z.1 h.1)

  -- Rows that keep their keys have distinct keys still.
  pub Zip-Keyed :
      (key : A → ℕ) (xs ys : List A)
      → ((x y : A) → R x y → key x ≡ key y)
      → Zip R xs ys
      → Keyed key xs
      → Keyed key ys
  Zip-Keyed key [] [] f z k = tt
  Zip-Keyed key [] (y ∷ ys) f z k = absurd z
  Zip-Keyed key (x ∷ xs) [] f z k = absurd z
  Zip-Keyed key (x ∷ xs) (y ∷ ys) f z k = (
    Zip-All xs ys (λ a b r n e. n (f x y z.0 ∙ e ∙ sym (f a b r))) z.1 k.0,
    Zip-Keyed key xs ys f z.1 k.1,
  )

pub Keyed-select :
    {A : Type 0} (key : A → ℕ) (p : A → Bool) (xs : List A) → Keyed key xs → Keyed key (select p xs)
Keyed-select key p [] k = tt
Keyed-select key p (x ∷ xs) k = elim (Bool-cases (p x)) [
  | inl e ↦ rw e (All-select (λ y. key x ≢ key y) p xs k.0, Keyed-select key p xs k.1)
  | inr e ↦ rw e (Keyed-select key p xs k.1)
]
