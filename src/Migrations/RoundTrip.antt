-- ===== src/Migrations/RoundTrip.antt =====
-- The migration and its undoing, on any server and any database that its names spare.
use eventmesh.Base.{
  String, true, ◌≡◌, refl, sym, subst, Option, some, List, [], ◌∷◌, str_eq, any, all, All,
  Option-cases, Bool-cases, none, inl, inr, eq_iff, and_true_left, and_true_right,
}
use eventmesh.Migrations.{Operation, Catalog, apply, run, Migrator, migrate}
use eventmesh.Migrations.Frame.{Spared, names_in, beside, run-beside}
use eventmesh.Migrations.Initial.{upgrade, downgrade}

abbrev pub no_relations : Catalog
no_relations = record { tables = []; indexes = [] }

-- What `upgrade` makes of an empty database.
abbrev or_same : Option Catalog → Catalog → Catalog
or_same none c = c
or_same (some d) c = d

abbrev pub schema : Catalog
schema = or_same (run upgrade no_relations) no_relations

upgrade_makes : run upgrade no_relations ≡ some schema
unfolding run apply
upgrade_makes = refl

downgrade_drops : run downgrade schema ≡ some no_relations
unfolding run apply
downgrade_drops = refl

-- A server does what the documentation says.
pub migrate-run :
    (m : Migrator) (ops : List Operation) (s : m.State) (c : Catalog)
    → run ops (m.view s) ≡ some c
    → (s' : m.State) × (migrate m ops s ≡ some s') × (m.view s' ≡ c)
unfolding run migrate
migrate-run m [] s c e = (s, refl, cc)
migrate-run m (o ∷ ops) s c e = elim (Option-cases (apply o (m.view s))) [
  | inl q ↦ cc (q, e)
  | inr (d, q) ↦
      let (s1, done, seen) = m.execute_applies o s d q in
      let (s2, rest, last) = migrate-run m ops s1 c (rw seen (rw q at e)) in
      (s2, rw done rest, last)
]

pick :
    (P : String → Type 0) (xs : List String) (y : String)
    → any (str_eq y) xs ≡ true
    → All P xs
    → P y
pick P [] y e h = cc
pick P (x ∷ xs) y e h = elim (Bool-cases (str_eq y x)) [
  | inl same ↦ subst P (sym ((eq_iff y x).0 same)) h.0
  | inr other ↦ pick P xs y (rw other at e) h.1
]

All_among :
    (P : String → Type 0) (xs ys : List String)
    → all (λ y. any (str_eq y) xs) ys ≡ true
    → All P xs
    → All P ys
All_among P xs [] e h = tt
All_among P xs (y ∷ ys) e h = (
  pick P xs y (and_true_left _ _ e) h,
  All_among P xs ys (and_true_right (any (str_eq y) xs) _ e) h,
)

-- `upgrade` succeeds and adds the schema.
pub migrate-upgrade :
    (m : Migrator) (s : m.State)
    → All (Spared (m.view s)) (names_in upgrade)
    → (up : m.State) × (migrate m upgrade s ≡ some up) × (m.view up ≡ beside (m.view s) schema)
migrate-upgrade m s spared =
    migrate-run m upgrade s _ (run-beside upgrade (m.view s) no_relations spared upgrade_makes)

-- In a database without a relation of the schema's names, and without a foreign key or an index on a
-- table of such a name, `upgrade` succeeds, `downgrade` succeeds after it, and the tables and indexes
-- are then what they were.
pub migrate-downgrade :
    (m : Migrator) (s : m.State)
    → All (Spared (m.view s)) (names_in upgrade)
    → (up : m.State) × (down : m.State) × (migrate m upgrade s ≡ some up)
      × (migrate m downgrade up ≡ some down)
      × (m.view down ≡ m.view s)
migrate-downgrade m s spared =
    let (up, done, made) = migrate-upgrade m s spared in
    let undone =
      run-beside downgrade (m.view s) schema
        (All_among (Spared (m.view s)) (names_in upgrade) (names_in downgrade) refl spared)
        downgrade_drops in
    let (down, dropped, left) = migrate-run m downgrade up _ (rw made undone) in
    (up, down, done, dropped, left)
