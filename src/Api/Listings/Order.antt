-- ===== src/Api/Listings/Order.antt =====
-- The order of the events, as comparisons, and the list after a place of a sorted list.
use mathlib.Core.Path.{◌≡◌, refl, sym}
use eventmesh.Base.{
  ℕ, zero, suc, ◌≢◌, ◌-◌, true, false, inl, inr, Bool-cases, Option, none, some, List, [], ◌∷◌,
  take, drop, select, All, Keyed, Sorted, insert_in, sort_in, All-insert_in, All-sort_in,
  select-All, arith,
}
use eventmesh.Base.Int.{ℤ, pos, negsuc}
use eventmesh.Database.{Event}
use eventmesh.Api.Listings.{Place, is_after, comes_first, clamp}

pub comes_first_trans :
    (a b c : Event) → comes_first a b ≡ true → comes_first b c ≡ true → comes_first a c ≡ true
comes_first_trans a b c h k = ground arith

pub comes_first_total : (a b : Event) → comes_first a b ≡ false → comes_first b a ≡ true
comes_first_total a b h = ground arith

abbrev pub at_event : Event → Option Place
at_event e = some (record { created_at = e.created_at; id = e.id })

-- What comes first is not after.
not_after : (a b : Event) → comes_first a b ≡ true → is_after (at_event b) a ≡ false
not_after a b h = ground arith

after : (a b : Event) → a.id ≢ b.id → comes_first a b ≡ true → is_after (at_event a) b ≡ true
after a b n h = ground arith

-- What is after a place that is after another is after that one.
pub after_trans :
    (p : Option Place) (a b : Event)
    → is_after p a ≡ true
    → is_after (at_event a) b ≡ true
    → is_after p b ≡ true
after_trans none a b h k = refl
after_trans (some p) a b h k = ground arith

pub clamp_positive : (limit : ℤ) → (n : ℕ) × (clamp limit ≡ suc n)
clamp_positive (pos n) = (clamp (pos n) - 1, ground arith)
clamp_positive (negsuc n) = (0, refl)

-- The last element of a list that begins with `x`.
abbrev pub last_of : Event → List Event → Event
last_of x [] = x
last_of x (y ∷ ys) = last_of y ys

pub All-last_of :
    (P : Event → Type 0) (x : Event) (xs : List Event) → P x → All P xs → P (last_of x xs)
All-last_of P x [] p h = p
All-last_of P x (y ∷ ys) p h = All-last_of P y ys h.0 h.1

pub All-take : (P : Event → Type 0) (n : ℕ) (xs : List Event) → All P xs → All P (take n xs)
All-take P zero xs h = tt
All-take P (suc n) [] h = tt
All-take P (suc n) (x ∷ xs) h = (h.0, All-take P n xs h.1)

Keyed-insert_in :
    (x : Event) (xs : List Event)
    → All (λ (y : Event). x.id ≢ y.id) xs
    → Keyed (λ (e : Event). e.id) xs
    → Keyed (λ (e : Event). e.id) (insert_in comes_first x xs)
Keyed-insert_in x [] h k = (tt, tt)
Keyed-insert_in x (y ∷ ys) h k = elim (Bool-cases (comes_first x y)) [
  | inl e ↦ rw e (h, k)
  | inr e ↦ rw e (
    All-insert_in (λ (z : Event). y.id ≢ z.id) comes_first x ys (λ q. h.0 (sym q)) k.0,
    Keyed-insert_in x ys h.1 k.1,
  )
]

pub Keyed-sort_in :
    (xs : List Event)
    → Keyed (λ (e : Event). e.id) xs
    → Keyed (λ (e : Event). e.id) (sort_in comes_first xs)
Keyed-sort_in [] k = tt
Keyed-sort_in (x ∷ xs) k =
    Keyed-insert_in x (sort_in comes_first xs)
      (All-sort_in (λ (y : Event). x.id ≢ y.id) comes_first xs k.0) (Keyed-sort_in xs k.1)

afters :
    (x : Event) (xs : List Event)
    → All (λ y. comes_first x y ≡ true) xs
    → All (λ (y : Event). x.id ≢ y.id) xs
    → All (λ y. is_after (at_event x) y ≡ true) xs
afters x [] h k = tt
afters x (y ∷ ys) h k = (after x y k.0 h.0, afters x ys h.1 k.1)

itself : (x : Event) → is_after (at_event x) x ≡ false
itself x = ground arith

-- In a sorted list, what is after the last element of a page is what the page leaves.
pub select-after_page :
    (n : ℕ) (x : Event) (xs : List Event)
    → Sorted comes_first (x ∷ xs)
    → Keyed (λ (e : Event). e.id) (x ∷ xs)
    → select (is_after (at_event (last_of x (take n xs)))) (x ∷ xs) ≡ drop n xs
select-after_page zero x xs s k = rw (itself x) (select-All _ xs (afters x xs s.0 k.0))
select-after_page (suc n) x [] s k = rw (itself x) refl
select-after_page (suc n) x (y ∷ ys) s k =
    let first : comes_first x (last_of y (take n ys)) ≡ true =
      All-last_of (λ z. comes_first x z ≡ true) y (take n ys) s.0.0
        (All-take (λ z. comes_first x z ≡ true) n ys s.0.1) in
    rw (not_after x (last_of y (take n ys)) first) (select-after_page n y ys s.1 k.1)
