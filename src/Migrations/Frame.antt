-- ===== src/Migrations/Frame.antt =====
-- A migration that runs on a small database runs in the same way beside anything it does not touch.
use eventmesh.Base.{
  String, Bool, true, false, not, ◌&&◌, ◌||◌, ◌≡◌, refl, ap, Option, none, some, List, [], ◌∷◌,
  ◌++◌, map, str_eq, any, all, select, All, All-left, All-right, arith, inl, inr, Option-cases,
  and_true_left, and_true_right, or_false_left, or_false_right, not-true,
}
use eventmesh.Migrations.{
  ColumnType, Column, Table, Index, Operation, create_table, create_index, drop_table, Catalog,
  taken, owns, constraint_taken, table_named, resolves, key_resolves, is_target, refers,
  is_indexable, without, is_elsewhere, provided, apply, run, is_sound,
}

-- The relations of `b`, and those of `o` with them
abbrev pub beside : Catalog → Catalog → Catalog
beside b o = record { tables = o.tables ++ b.tables; indexes = o.indexes ++ b.indexes }

-- A foreign key or an index of the catalog names table `n`.
abbrev pub mentions : String → Catalog → Bool
mentions n c = any (refers n) c.tables || any (λ (i : Index). str_eq n i.table) c.indexes

-- The catalog neither has a relation of the name nor anything that names such a table.
abbrev pub Spared : Catalog → String → Type 0
Spared c n = (taken n c ≡ false) × (mentions n c ≡ false)

-- The names that an operation makes or drops.
abbrev pub names_of : Operation → List String
names_of (create_table t) = t.name ∷ map (λ (u : String × List String). u.0) t.unique_constraints
names_of (create_index i) = i.name ∷ []
names_of (drop_table n) = n ∷ []

abbrev pub names_in : List Operation → List String
names_in [] = []
names_in (o ∷ os) = names_of o ++ names_in os

any-append : {A : Type 0} (p : A → Bool) (xs ys : List A) → any p (xs ++ ys) ≡ any p xs || any p ys
any-append p [] ys = refl
any-append p (x ∷ xs) ys = ground (arith, any-append p xs ys)

taken-beside :
    (n : String) (b o : Catalog)
    → taken n b ≡ false
    → taken n o ≡ false
    → taken n (beside b o) ≡ false
taken-beside n b o f g = ground (
  arith,
  any-append (owns n) o.tables b.tables,
  any-append (λ (i : Index). str_eq n i.name) o.indexes b.indexes,
)

constraint_taken-beside :
    (b o : Catalog) (us : List (String × List String))
    → All (Spared b) (map (λ (u : String × List String). u.0) us)
    → any (constraint_taken o) us ≡ false
    → any (constraint_taken (beside b o)) us ≡ false
constraint_taken-beside b o [] h g = refl
constraint_taken-beside b o (u ∷ us) h g =
    let here = taken-beside u.0 b o h.0.0 (or_false_left _ _ g) in
    rw here (constraint_taken-beside b o us h.1 (or_false_right (taken u.0 o) _ g))

key_resolves-append :
    (ts us : List Table) (kind : ColumnType) (key : Option (String × String))
    → key_resolves ts kind key ≡ true
    → key_resolves (ts ++ us) kind key ≡ true
key_resolves-append ts us kind none h = refl
key_resolves-append ts us kind (some (table, column)) h =
    rw (any-append (is_target kind table column) ts us, h) refl

all-resolves-append :
    (ts us : List Table) (cs : List Column)
    → all (resolves ts) cs ≡ true
    → all (resolves (ts ++ us)) cs ≡ true
all-resolves-append ts us [] h = refl
all-resolves-append ts us (c ∷ cs) h =
    rw (key_resolves-append ts us c.kind c.foreign_key (and_true_left _ _ h))
      (all-resolves-append ts us cs (and_true_right _ _ h))

without-append :
    (n : String) (ts us : List Table)
    → any (table_named n) ts ≡ true
    → without n (ts ++ us) ≡ without n ts ++ us
without-append n [] us h = cc
without-append n (t ∷ ts) us h = ground (arith, without-append n ts us)

select_elsewhere-append :
    (n : String) (is js : List Index)
    → any (λ (i : Index). str_eq n i.table) js ≡ false
    → select (is_elsewhere n) (is ++ js) ≡ select (is_elsewhere n) is ++ js
select_elsewhere-append n [] [] h = refl
select_elsewhere-append n [] (j ∷ js) h =
    let here = or_false_left (str_eq n j.table) (any (λ (i : Index). str_eq n i.table) js) h in
    let later = or_false_right (str_eq n j.table) (any (λ (i : Index). str_eq n i.table) js) h in
    rw here (ap (◌∷◌ j) (select_elsewhere-append n [] js later))
select_elsewhere-append n (i ∷ is) js h = ground (arith, select_elsewhere-append n is js h)

provided-some :
    (test : Bool) (c : Catalog) {d : Catalog} → provided test c ≡ some d → (test ≡ true) × (c ≡ d)
provided-some true c h = (refl, cc)
provided-some false c h = cc

all_true :
    (a b c d : Bool) → a && b && c && d ≡ true → (a ≡ true) × (b ≡ true) × (c ≡ true) × (d ≡ true)
all_true true true true true h = (refl, refl, refl, refl)
all_true true true true false h = cc
all_true true true false d h = cc
all_true true false c d h = cc
all_true false b c d h = cc

apply-beside :
    (p : Operation) (b o : Catalog) {o' : Catalog}
    → All (Spared b) (names_of p)
    → apply p o ≡ some o'
    → apply p (beside b o) ≡ some (beside b o')
unfolding apply
apply-beside (create_table t) b o h e =
    let (test, same) = provided-some _ _ e in
    let (sound, free, unused, resolved) =
      all_true (is_sound t) (not (taken t.name o))
        (not (any (constraint_taken o) t.unique_constraints))
        (all (resolves (t ∷ o.tables)) t.columns) test in
    rw
      (
        sound,
        taken-beside t.name b o h.0.0 (not-true (taken t.name o) free),
        constraint_taken-beside b o t.unique_constraints h.1
            (not-true (any (constraint_taken o) t.unique_constraints) unused),
        all-resolves-append (t ∷ o.tables) b.tables t.columns resolved,
      )
      (ap some (ap (beside b) same))
apply-beside (create_index i) b o h e =
    let (test, same) = provided-some _ _ e in
    let free = not-true (taken i.name o) (and_true_left _ (any (is_indexable i) o.tables) test) in
    let stands = and_true_right (not (taken i.name o)) (any (is_indexable i) o.tables) test in
    rw (taken-beside i.name b o h.0.0 free, any-append (is_indexable i) o.tables b.tables, stands)
      (ap some (ap (beside b) same))
apply-beside (drop_table n) b o h e =
    let (test, same) = provided-some _ _ e in
    let stands =
      and_true_left (any (table_named n) o.tables) (not (any (refers n) (without n o.tables)))
        test in
    let unused = not-true (any (refers n) (without n o.tables)) (
      and_true_right (any (table_named n) o.tables) (not (any (refers n) (without n o.tables)))
        test) in
    rw
      (
        any-append (table_named n) o.tables b.tables,
        stands,
        without-append n o.tables b.tables stands,
        any-append (refers n) (without n o.tables) b.tables,
        unused,
        or_false_left (any (refers n) b.tables) (any (λ (i : Index). str_eq n i.table) b.indexes)
            h.0.1,
        select_elsewhere-append n o.indexes b.indexes (
            or_false_right (any (refers n) b.tables)
              (any (λ (i : Index). str_eq n i.table) b.indexes) h.0.1),
      )
      (ap some (ap (beside b) same))

-- If the operations run on `o`, then they run on `o` and `b` together, for a `b` that their names
-- spare, and leave `b` as it was.
pub run-beside :
    (ops : List Operation) (b o : Catalog) {o' : Catalog}
    → All (Spared b) (names_in ops)
    → run ops o ≡ some o'
    → run ops (beside b o) ≡ some (beside b o')
unfolding run
run-beside [] b o h e = ap some (ap (beside b) cc)
run-beside (p ∷ ops) b o h e = elim (Option-cases (apply p o)) [
  | inl q ↦ cc (q, e)
  | inr (o1, q) ↦
      let here = apply-beside p b o (All-left _ (names_of p) _ h) q in
      rw here (run-beside ops b o1 (All-right _ (names_of p) _ h) (rw q at e))
]
