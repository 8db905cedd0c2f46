-- ===== src/Migrations/Columns.antt =====
-- Columns as the migration and the models write them: `sa.Column(…)` and `mapped_column(…)`.
use eventmesh.Base.{String, Bool, true, false, none, some}
use eventmesh.Migrations.{ColumnType, uuid, date_time, Default, now, Column}

-- A column that may not be null, with no further argument
abbrev pub required : String → ColumnType → Column
required name kind = record {
  name = name;
  kind = kind;
  foreign_key = none;
  primary_key = false;
  nullable = false;
  unique = false;
  server_default = none;
}

abbrev pub optional : String → ColumnType → Column
optional name kind = record (required name kind) { nullable = true }

-- `primary_key=True`, which is not null
abbrev pub primary : Column → Column
primary c = record c { primary_key = true }

abbrev pub unique : Column → Column
unique c = record c { unique = true }

-- A column of ids with `ForeignKey("<table>.id")`
abbrev pub reference : String → String → Column
reference name table = record (required name uuid) { foreign_key = some (table, "id") }

abbrev pub defaults_to : Default → Column → Column
defaults_to value c = record c { server_default = some value }

-- A time that the server sets, `server_default=func.now()`
abbrev pub stamped : Bool → String → Column
stamped timezone name = defaults_to now (required name (date_time timezone))
