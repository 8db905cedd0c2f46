-- ===== src/Base/Sorting.antt =====
-- Insertion sort by a Boolean order that is total and transitive, and what it does to queries.
use mathlib.Core.Path.{◌≡◌, refl, ap, sym, ◌∙◌}
use mathlib.Core.Logic.{inl, inr}
use mathlib.Core.Bool.{Bool, true, false, ◌&&◌}
use mathlib.Core.List.{List, [], ◌∷◌}
use eventmesh.Base.Tests.{if◌then◌else◌, Bool-cases}
use eventmesh.Base.Lists.{All, length, select}
use Prim.Native.Nat.{suc}
use native.Mathlib.Omega.{arith}
use eventmesh.Base.Rows.{if_true, if_false, All-map, All-select}

module _ {A : Type 0} where
  abbrev pub insert_in : (A → A → Bool) → A → List A → List A
  insert_in le x [] = x ∷ []
  insert_in le x (y ∷ ys) = if le x y then x ∷ y ∷ ys else y ∷ insert_in le x ys

  abbrev pub sort_in : (A → A → Bool) → List A → List A
  sort_in le [] = []
  sort_in le (x ∷ xs) = insert_in le x (sort_in le xs)

  abbrev pub Sorted : (A → A → Bool) → List A → Type 0
  Sorted le [] = Unit
  Sorted le (x ∷ xs) = All (λ y. le x y ≡ true) xs × Sorted le xs

  pub select-select :
      (p q : A → Bool) (xs : List A)
      → ((x : A) → q x ≡ true → p x ≡ true)
      → select q (select p xs) ≡ select q xs
  select-select p q [] h = refl
  select-select p q (x ∷ xs) h = elim (Bool-cases (q x)) [
    | inl e ↦ rw (h x e, e) (ap (◌∷◌ x) (select-select p q xs h))
    | inr e ↦ elim (Bool-cases (p x)) [
      | inl t ↦ rw (t, e) (select-select p q xs h)
      | inr f ↦ rw (f, e) (select-select p q xs h)
    ]
  ]

  pub select-and :
      (p q : A → Bool) (xs : List A) → select (λ x. p x && q x) xs ≡ select q (select p xs)
  select-and p q [] = refl
  select-and p q (x ∷ xs) = elim (Bool-cases (p x)) [
    | inl t ↦ elim (Bool-cases (q x)) [
      | inl e ↦ rw (t, e) (ap (◌∷◌ x) (select-and p q xs))
      | inr e ↦ rw (t, e) (select-and p q xs)
    ]
    | inr f ↦ rw f (select-and p q xs)
  ]

  pub select-All : (p : A → Bool) (xs : List A) → All (λ x. p x ≡ true) xs → select p xs ≡ xs
  select-All p [] h = refl
  select-All p (x ∷ xs) h = rw h.0 (ap (◌∷◌ x) (select-All p xs h.1))

  pub Sorted-select :
      (le : A → A → Bool) (p : A → Bool) (xs : List A) → Sorted le xs → Sorted le (select p xs)
  Sorted-select le p [] s = tt
  Sorted-select le p (x ∷ xs) s = elim (Bool-cases (p x)) [
    | inl e ↦ rw e (All-select (λ y. le x y ≡ true) p xs s.0, Sorted-select le p xs s.1)
    | inr e ↦ rw e (Sorted-select le p xs s.1)
  ]

  pub All-insert_in :
      (P : A → Type 0) (le : A → A → Bool) (x : A) (xs : List A)
      → P x
      → All P xs
      → All P (insert_in le x xs)
  All-insert_in P le x [] p h = (p, tt)
  All-insert_in P le x (y ∷ ys) p h = elim (Bool-cases (le x y)) [
    | inl e ↦ rw e (p, h)
    | inr e ↦ rw e (h.0, All-insert_in P le x ys p h.1)
  ]

  pub All-sort_in :
      (P : A → Type 0) (le : A → A → Bool) (xs : List A) → All P xs → All P (sort_in le xs)
  All-sort_in P le [] h = tt
  All-sort_in P le (x ∷ xs) h = All-insert_in P le x (sort_in le xs) h.0 (All-sort_in P le xs h.1)

  length-insert_in :
      (le : A → A → Bool) (x : A) (xs : List A) → length (insert_in le x xs) ≡ suc (length xs)
  length-insert_in le x [] = refl
  length-insert_in le x (y ∷ ys) = ground (arith, length-insert_in le x ys)

  pub length-sort_in : (le : A → A → Bool) (xs : List A) → length (sort_in le xs) ≡ length xs
  length-sort_in le [] = refl
  length-sort_in le (x ∷ xs) = length-insert_in le x (sort_in le xs) ∙ ap suc (length-sort_in le xs)

  -- An element that comes before all others is put first.
  insert_in_first :
      (le : A → A → Bool) (x : A) (xs : List A)
      → All (λ y. le x y ≡ true) xs
      → insert_in le x xs ≡ x ∷ xs
  insert_in_first le x [] h = refl
  insert_in_first le x (y ∷ ys) h = if_true _ _ h.0

module _ {A : Type 0} (le : A → A → Bool)
    (trans : (x y z : A) → le x y ≡ true → le y z ≡ true → le x z ≡ true)
    (total : (x y : A) → le x y ≡ false → le y x ≡ true) where
  insert_in-Sorted : (x : A) (xs : List A) → Sorted le xs → Sorted le (insert_in le x xs)
  insert_in-Sorted x [] s = (tt, tt)
  insert_in-Sorted x (y ∷ ys) s = elim (Bool-cases (le x y)) [
    | inl e ↦ rw e ((e, All-map ys (λ z h. trans x y z e h) s.0), s)
    | inr e ↦
        rw e
          (All-insert_in (λ z. le y z ≡ true) le x ys (total x y e) s.0, insert_in-Sorted x ys s.1)
  ]

  pub sort_in-Sorted : (xs : List A) → Sorted le (sort_in le xs)
  sort_in-Sorted [] = tt
  sort_in-Sorted (x ∷ xs) = insert_in-Sorted x (sort_in le xs) (sort_in-Sorted xs)

  select-insert_in :
      (p : A → Bool) (x : A) (xs : List A)
      → Sorted le xs
      → p x ≡ true
      → select p (insert_in le x xs) ≡ insert_in le x (select p xs)
  select-insert_in p x [] s t = if_true _ _ t
  select-insert_in p x (y ∷ ys) s t = elim (Bool-cases (le x y)) [
    | inl e ↦
        rw (e, t)
          (sym (
            insert_in_first le x (select p (y ∷ ys)) (
              All-select (λ z. le x z ≡ true) p (y ∷ ys)
                (e, All-map ys (λ z h. trans x y z e h) s.0))))
    | inr e ↦ elim (Bool-cases (p y)) [
      | inl passes ↦ rw (e, passes, e) (ap (◌∷◌ y) (select-insert_in p x ys s.1 t))
      | inr fails ↦ rw (e, fails) (select-insert_in p x ys s.1 t)
    ]
  ]

  select-insert_in_drop :
      (p : A → Bool) (x : A) (xs : List A)
      → p x ≡ false
      → select p (insert_in le x xs) ≡ select p xs
  select-insert_in_drop p x [] f = if_false _ _ f
  select-insert_in_drop p x (y ∷ ys) f = elim (Bool-cases (le x y)) [
    | inl e ↦ rw (e, f) refl
    | inr e ↦ elim (Bool-cases (p y)) [
      | inl passes ↦ rw (e, passes) (ap (◌∷◌ y) (select-insert_in_drop p x ys f))
      | inr fails ↦ rw (e, fails) (select-insert_in_drop p x ys f)
    ]
  ]

  -- A query may filter before or after it sorts.
  pub sort_in-select :
      (p : A → Bool) (xs : List A) → sort_in le (select p xs) ≡ select p (sort_in le xs)
  sort_in-select p [] = refl
  sort_in-select p (x ∷ xs) = elim (Bool-cases (p x)) [
    | inl t ↦ rw t (
        ap (insert_in le x) (sort_in-select p xs)
        ∙ sym (select-insert_in p x (sort_in le xs) (sort_in-Sorted xs) t))
    | inr f ↦ rw f (sort_in-select p xs ∙ sym (select-insert_in_drop p x (sort_in le xs) f))
  ]
