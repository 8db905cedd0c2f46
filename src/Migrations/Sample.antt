-- ===== src/Migrations/Sample.antt =====
-- A database that holds alembic's own table only, and a server on which the operations are what the
-- documentation says.
use eventmesh.Base.{
  String, Bool, true, not, ◌&&◌, ◌≡◌, refl, some, List, [], ◌∷◌, all, All, and_true_left,
  and_true_right, not-true,
}
use eventmesh.Migrations.{string, Table, Catalog, taken, apply, run, Migrator, migrate}
use eventmesh.Migrations.Columns.{primary, required}
use eventmesh.Migrations.Frame.{Spared, mentions, names_in, beside}
use eventmesh.Migrations.Initial.{upgrade}
use eventmesh.Migrations.RoundTrip.{schema}

abbrev alembic_version : Table
alembic_version = record {
  name = "alembic_version";
  columns = primary (required "version_num" (string 32)) ∷ [];
  unique_constraints = [];
}

abbrev pub before : Catalog
before = record { tables = alembic_version ∷ []; indexes = [] }

abbrev pub after : Catalog
after = beside before schema

abbrev pub server : Migrator
server = record {
  State = Catalog;
  view = λ c. c;
  execute = apply;
  execute_applies = λ o s c e. (c, e, refl);
}

is_spared : Catalog → String → Bool
is_spared c n = not (taken n c) && not (mentions n c)

All-Spared : (c : Catalog) (ns : List String) → all (is_spared c) ns ≡ true → All (Spared c) ns
unfolding is_spared
All-Spared c [] e = tt
All-Spared c (n ∷ ns) e =
    let here = and_true_left (not (taken n c) && not (mentions n c)) (all (is_spared c) ns) e in
    (
      (
        not-true _ (and_true_left (not (taken n c)) (not (mentions n c)) here),
        not-true _ (and_true_right (not (taken n c)) (not (mentions n c)) here),
      ),
      All-Spared c ns (and_true_right (is_spared c n) _ e),
    )

pub before-Spared : All (Spared before) (names_in upgrade)
unfolding is_spared
before-Spared = All-Spared before (names_in upgrade) refl

pub upgraded : migrate server upgrade before ≡ some after
unfolding migrate run apply
upgraded = refl
