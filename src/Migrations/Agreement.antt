-- ===== src/Migrations/Agreement.antt =====
-- The migration against the models that it says it maps one to one.
use mathlib.Core.List.{reverse}
use eventmesh.Base.{true, ◌≡◌, refl, some, ◌++◌, map, str_eq, All, if◌then◌else◌}
use eventmesh.Migrations.{
  ColumnType, date_time, is_false, Column, Table, apply, run, Migrator, migrate,
}
use eventmesh.Migrations.Frame.{Spared, names_in}
use eventmesh.Migrations.Initial.{upgrade}
use eventmesh.Migrations.Models.{model_tables, model_indexes}
use eventmesh.Migrations.RoundTrip.{schema, migrate-upgrade}

-- A time of the models, which have no zone, is a time with its zone.
abbrev pub with_zone : ColumnType → ColumnType
with_zone (date_time timezone) = date_time true
with_zone kind = kind

-- What the migration makes of a column of the models
abbrev pub migrated : Column → Column
migrated c = record c {
  kind = with_zone c.kind;
  server_default = if str_eq c.name "is_replay" then some is_false else c.server_default;
}

abbrev pub migrated_table : Table → Table
migrated_table t = record t { columns = map migrated t.columns }

schema_tables : schema.tables ≡ reverse (map migrated_table model_tables)
unfolding run apply
schema_tables = refl

schema_indexes : schema.indexes ≡ reverse model_indexes
unfolding run apply
schema_indexes = refl

-- In a database without a relation of the schema's names, and without a foreign key or an index on a
-- table of such a name, `upgrade` succeeds. It adds the tables of the models, in the order of their
-- classes, with the same columns, keys and constraints, but that every time has a time zone and that
-- `is_replay` has a default of the server; it adds just the models' indexes; the rest is as before.
pub migrate-upgrade_models :
    (m : Migrator) (s : m.State)
    → All (Spared (m.view s)) (names_in upgrade)
    → (up : m.State) × (migrate m upgrade s ≡ some up)
      × ((m.view up).tables ≡ reverse (map migrated_table model_tables) ++ (m.view s).tables)
      × ((m.view up).indexes ≡ reverse model_indexes ++ (m.view s).indexes)
migrate-upgrade_models m s spared =
    let (up, done, made) = migrate-upgrade m s spared in
    (up, done, rw (made, schema_tables) refl, rw (made, schema_indexes) refl)
