-- ===== src/Base/Rows.antt =====
-- Lemmas on tables: rows that are found, kept, sorted and changed in place.
use mathlib.Core.Path.{◌≡◌, refl, sym, ap, subst, ◌∙◌}
use mathlib.Core.Logic.{◌≢◌, ◌⊎◌, inl, inr}
use mathlib.Core.Bool.{Bool, true, false}
use mathlib.Core.Option.{some}
use mathlib.Core.List.{List, [], ◌∷◌, ◌++◌}
use Prim.Native.Nat.{ℕ, zero, suc, ◌≤◌}
use native.Mathlib.Omega.{arith}
use eventmesh.Base.Tests.{leb, if◌then◌else◌, Bool-cases}
use eventmesh.Base.Lists.{All, Has, length, find, take, select, order_by, insert_by, update}

pub if_true {ℓ} : {A : Type ℓ} {b : Bool} (x y : A) → b ≡ true → (if b then x else y) ≡ x
if_true {b = true} x y e = refl
if_true {b = false} x y e = cc

pub if_false {ℓ} : {A : Type ℓ} {b : Bool} (x y : A) → b ≡ false → (if b then x else y) ≡ y
if_false {b = true} x y e = cc
if_false {b = false} x y e = refl

-- No two rows have the same key.
abbrev pub Keyed : {A : Type 0} → (A → ℕ) → List A → Type 0
Keyed key [] = Unit
Keyed key (x ∷ xs) = All (λ y. key x ≢ key y) xs × Keyed key xs

pub All-of_forall :
    {A : Type 0} {P : A → Type 0} (xs : List A) → ((a : A) → Has a xs → P a) → All P xs
All-of_forall [] h = tt
All-of_forall (x ∷ xs) h = (h x (inl refl), All-of_forall xs (λ a m. h a (inr m)))

pub All-Has : {A : Type 0} (P : A → Type 0) (xs : List A) {a : A} → All P xs → Has a xs → P a
All-Has P [] h m = absurd m
All-Has P (x ∷ xs) h (inl e) = rw e h.0
All-Has P (x ∷ xs) h (inr m) = All-Has P xs h.1 m

pub All-map :
    {A : Type 0} {P Q : A → Type 0} (xs : List A) → ((a : A) → P a → Q a) → All P xs → All Q xs
All-map [] f h = tt
All-map (x ∷ xs) f h = (f x h.0, All-map xs f h.1)

-- Rows with one key are one row.
pub Keyed-unique :
    {A : Type 0} (key : A → ℕ) (xs : List A) {a b : A}
    → Keyed key xs
    → Has a xs
    → Has b xs
    → key a ≡ key b
    → a ≡ b
Keyed-unique key [] k m n e = absurd m
Keyed-unique key (x ∷ xs) k (inl p) (inl q) e = cc
Keyed-unique key (x ∷ xs) k (inl p) (inr n) e = absurd (All-Has _ xs k.0 n (cc (ap key p)))
Keyed-unique key (x ∷ xs) k (inr m) (inl q) e = absurd (All-Has _ xs k.0 m (cc (ap key q)))
Keyed-unique key (x ∷ xs) k (inr m) (inr n) e = Keyed-unique key xs k.1 m n e

pub Has-append_left : {A : Type 0} (a : A) (xs ys : List A) → Has a xs → Has a (xs ++ ys)
Has-append_left a [] ys m = absurd m
Has-append_left a (x ∷ xs) ys (inl e) = inl e
Has-append_left a (x ∷ xs) ys (inr m) = inr (Has-append_left a xs ys m)

pub Has-append_right : {A : Type 0} (a : A) (xs ys : List A) → Has a ys → Has a (xs ++ ys)
Has-append_right a [] ys m = m
Has-append_right a (x ∷ xs) ys m = inr (Has-append_right a xs ys m)

pub Has-append : {A : Type 0} (a : A) (xs ys : List A) → Has a (xs ++ ys) → Has a xs ⊎ Has a ys
Has-append a [] ys m = inr m
Has-append a (x ∷ xs) ys (inl e) = inl (inl e)
Has-append a (x ∷ xs) ys (inr m) = elim (Has-append a xs ys m) [
  | inl n ↦ inl (inr n)
  | inr n ↦ inr n
]

pub Has-take : {A : Type 0} (a : A) (n : ℕ) (xs : List A) → Has a (take n xs) → Has a xs
Has-take a zero xs m = absurd m
Has-take a (suc n) [] m = absurd m
Has-take a (suc n) (x ∷ xs) (inl e) = inl e
Has-take a (suc n) (x ∷ xs) (inr m) = inr (Has-take a n xs m)

pub Has-insert_by :
    {A : Type 0} (a : A) (key : A → ℕ) (x : A) (xs : List A)
    → Has a (insert_by key x xs)
    → Has a (x ∷ xs)
Has-insert_by a key x [] m = m
Has-insert_by a key x (y ∷ ys) m = elim (Bool-cases (leb (key x) (key y))) [
  | inl e ↦ rw e at m
  | inr e ↦ elim (subst (Has a) (if_false _ _ e) m) [
    | inl here ↦ inr (inl here)
    | inr there ↦ elim (Has-insert_by a key x ys there) [
      | inl new ↦ inl new
      | inr old ↦ inr (inr old)
    ]
  ]
]

pub Has-order_by :
    {A : Type 0} (a : A) (key : A → ℕ) (xs : List A) → Has a (order_by key xs) → Has a xs
Has-order_by a key [] m = m
Has-order_by a key (x ∷ xs) m = elim (Has-insert_by a key x (order_by key xs) m) [
  | inl e ↦ inl e
  | inr n ↦ inr (Has-order_by a key xs n)
]

-- A row that a query returns is in the table, and passed its test.
pub Has-select :
    {A : Type 0} (a : A) (p : A → Bool) (xs : List A)
    → Has a (select p xs)
    → Has a xs × (p a ≡ true)
Has-select a p [] m = absurd m
Has-select a p (x ∷ xs) m = elim (Bool-cases (p x)) [
  | inl e ↦ elim (subst (Has a) (if_true _ _ e) m) [
    | inl here ↦ (inl here, cc (ap p here))
    | inr there ↦ let (n, t) = Has-select a p xs there in (inr n, t)
  ]
  | inr e ↦ let (n, t) = Has-select a p xs (subst (Has a) (if_false _ _ e) m) in (inr n, t)
]

-- A row of the table that passes is returned.
pub Has-select_of :
    {A : Type 0} (a : A) (p : A → Bool) (xs : List A) → Has a xs → p a ≡ true → Has a (select p xs)
Has-select_of a p [] m t = absurd m
Has-select_of a p (x ∷ xs) (inl e) t = rw (← e) (subst (Has a) (sym (if_true _ _ t)) (inl refl))
Has-select_of a p (x ∷ xs) (inr m) t = elim (Bool-cases (p x)) [
  | inl e ↦ subst (Has a) (sym (if_true _ _ e)) (inr (Has-select_of a p xs m t))
  | inr e ↦ subst (Has a) (sym (if_false _ _ e)) (Has-select_of a p xs m t)
]

Has-insert_by_of :
    {A : Type 0} (a : A) (key : A → ℕ) (x : A) (xs : List A)
    → Has a (x ∷ xs)
    → Has a (insert_by key x xs)
Has-insert_by_of a key x [] m = m
Has-insert_by_of a key x (y ∷ ys) m = elim (Bool-cases (leb (key x) (key y))) [
  | inl e ↦ subst (Has a) (sym (if_true _ _ e)) m
  | inr e ↦ subst (Has a) (sym (if_false _ _ e)) (elim m [
    | inl new ↦ inr (Has-insert_by_of a key x ys (inl new))
    | inr (inl next) ↦ inl next
    | inr (inr old) ↦ inr (Has-insert_by_of a key x ys (inr old))
  ])
]

pub Has-order_by_of :
    {A : Type 0} (a : A) (key : A → ℕ) (xs : List A) → Has a xs → Has a (order_by key xs)
Has-order_by_of a key [] m = m
Has-order_by_of a key (x ∷ xs) (inl e) = Has-insert_by_of a key x _ (inl e)
Has-order_by_of a key (x ∷ xs) (inr m) =
    Has-insert_by_of a key x _ (inr (Has-order_by_of a key xs m))

length-insert_by :
    {A : Type 0} (key : A → ℕ) (x : A) (xs : List A) → length (insert_by key x xs) ≡ suc (length xs)
length-insert_by key x [] = refl
length-insert_by key x (y ∷ ys) = ground (arith, length-insert_by key x ys)

pub length-order_by :
    {A : Type 0} (key : A → ℕ) (xs : List A) → length (order_by key xs) ≡ length xs
length-order_by key [] = refl
length-order_by key (x ∷ xs) = length-insert_by key x _ ∙ ap suc (length-order_by key xs)

pub take_all : {A : Type 0} (n : ℕ) (xs : List A) → length xs ≤ n → take n xs ≡ xs
take_all zero [] h = refl
take_all zero (x ∷ xs) h = elim h [ ]
take_all (suc n) [] h = refl
take_all (suc n) (x ∷ xs) h = ap (◌∷◌ x) (take_all n xs (omega arith))

pub take_nil : {A : Type 0} (n : ℕ) → take {A = A} n [] ≡ []
take_nil zero = refl
take_nil (suc n) = refl

pub All-append :
    {A : Type 0} (P : A → Type 0) (xs ys : List A) → All P xs → All P ys → All P (xs ++ ys)
All-append P [] ys h k = k
All-append P (x ∷ xs) ys h k = (h.0, All-append P xs ys h.1 k)

pub All-left : {A : Type 0} (P : A → Type 0) (xs ys : List A) → All P (xs ++ ys) → All P xs
All-left P [] ys h = tt
All-left P (x ∷ xs) ys h = (h.0, All-left P xs ys h.1)

pub All-right : {A : Type 0} (P : A → Type 0) (xs ys : List A) → All P (xs ++ ys) → All P ys
All-right P [] ys h = h
All-right P (x ∷ xs) ys h = All-right P xs ys h.1

pub All-update :
    {A : Type 0} (P : A → Type 0) (p : A → Bool) (f : A → A) (xs : List A)
    → ((a : A) → p a ≡ true → P a → P (f a))
    → All P xs
    → All P (update p f xs)
All-update P p f [] k h = tt
All-update P p f (x ∷ xs) k h = (
  elim (Bool-cases (p x)) [ inl e ↦ rw e (k x e h.0) | inr e ↦ rw e h.0 ],
  All-update P p f xs k h.1,
)

-- What `find` returns stands in the list, and passes.
pub Has-find :
    {A : Type 0} (p : A → Bool) (xs : List A) {a : A} → find p xs ≡ some a → Has a xs × (p a ≡ true)
Has-find p [] e = cc
Has-find p (x ∷ xs) {a} e = elim (Bool-cases (p x)) [
  | inl t ↦ let same : a ≡ x = cc (if_true (some x) (find p xs) t, e) in (inl same, ap p same ∙ t)
  | inr f ↦ let (m, t) = Has-find p xs (sym (if_false (some x) (find p xs) f) ∙ e) in (inr m, t)
]

pub All-select :
    {A : Type 0} (P : A → Type 0) (p : A → Bool) (xs : List A) → All P xs → All P (select p xs)
All-select P p [] h = tt
All-select P p (x ∷ xs) h = elim (Bool-cases (p x)) [
  | inl e ↦ rw e (h.0, All-select P p xs h.1)
  | inr e ↦ rw e (All-select P p xs h.1)
]

-- A row that does not pass stands in the table after a change of the others.
pub Has-update_other :
    {A : Type 0} (a : A) (p : A → Bool) (f : A → A) (xs : List A)
    → Has a xs
    → p a ≡ false
    → Has a (update p f xs)
Has-update_other a p f [] m e = absurd m
Has-update_other a p f (x ∷ xs) (inl q) e = inl (q ∙ sym (if_false _ _ (ap p (sym q) ∙ e)))
Has-update_other a p f (x ∷ xs) (inr m) e = inr (Has-update_other a p f xs m e)
