-- ===== src/Migrations.antt =====
-- migrations/versions/0001_initial.py: what a migration says, as data. `apply` is the documented
-- effect of one operation on the catalog of the database, with none where its conditions do not hold.
-- Relations share one namespace: tables, indexes and named constraints. The indexes that the server
-- makes for keys under names of its own choice are left out.
pub mod Columns
pub mod Frame
pub mod Initial
pub mod Models
pub mod RoundTrip
pub mod Agreement
pub mod Widths
pub mod Sample
mod Examples
use eventmesh.Base.{
  ℕ, String, Bool, true, false, not, ◌&&◌, ◌||◌, ◌≡◌, Option, none, some, List, [], ◌∷◌, ◌++◌,
  str_eq, any, all, select, ◌==◌, if◌then◌else◌,
}

pub data ColumnType : Type 0 where
  uuid text integer big_integer boolean jsonb : ColumnType
  string : (length : ℕ) → ColumnType
  date_time : (timezone : Bool) → ColumnType

-- `sa.func.now()` and `sa.false()`
pub data Default : Type 0 where
  now is_false : Default

-- `sa.Column`; a foreign key names a table and a column of it
pub record Column : Type 0 where
  pub name : String
  pub kind : ColumnType
  pub foreign_key : Option (String × String)
  pub primary_key : Bool
  pub nullable : Bool
  pub unique : Bool
  pub server_default : Option Default

-- The arguments of `op.create_table`; a unique constraint is a name and the columns.
pub record Table : Type 0 where
  pub name : String
  pub columns : List Column
  pub unique_constraints : List (String × List String)

-- The arguments of `op.create_index`
pub record Index : Type 0 where
  pub name : String
  pub table : String
  pub columns : List String

pub data Operation : Type 0 where
  create_table : Table → Operation
  create_index : Index → Operation
  drop_table : String → Operation

pub record Catalog : Type 0 where
  pub tables : List Table
  pub indexes : List Index

abbrev pub table_named : String → Table → Bool
table_named n t = str_eq n t.name

abbrev pub has_column : String → Table → Bool
has_column n t = any (λ (c : Column). str_eq n c.name) t.columns

abbrev pub same_kind : ColumnType → ColumnType → Bool
same_kind uuid uuid = true
same_kind text text = true
same_kind integer integer = true
same_kind big_integer big_integer = true
same_kind boolean boolean = true
same_kind jsonb jsonb = true
same_kind (string m) (string n) = m == n
same_kind (date_time a) (date_time b) = if a then b else not b
same_kind _ _ = false

-- A column that a foreign key may name from a column of the type
abbrev pub is_key : ColumnType → String → Column → Bool
is_key kind n c = str_eq n c.name && (c.primary_key || c.unique) && same_kind kind c.kind

abbrev pub has_key : ColumnType → String → Table → Bool
has_key kind n t = any (is_key kind n) t.columns

-- No column name comes twice.
abbrev pub are_distinct : List Column → Bool
are_distinct [] = true
are_distinct (c ∷ cs) = not (any (λ (d : Column). str_eq c.name d.name) cs) && are_distinct cs

abbrev pub is_constraint_of : Table → String × List String → Bool
is_constraint_of t u = not (str_eq u.0 t.name) && all (λ n. has_column n t) u.1

-- What a table must be by itself
abbrev pub is_sound : Table → Bool
is_sound t = are_distinct t.columns && all (is_constraint_of t) t.unique_constraints

abbrev pub owns : String → Table → Bool
owns n t = str_eq n t.name || any (λ (u : String × List String). str_eq n u.0) t.unique_constraints

-- Some relation has the name.
abbrev pub taken : String → Catalog → Bool
taken n c = any (owns n) c.tables || any (λ (i : Index). str_eq n i.name) c.indexes

abbrev pub constraint_taken : Catalog → String × List String → Bool
constraint_taken c u = taken u.0 c

abbrev pub is_target : ColumnType → String → String → Table → Bool
is_target kind table column t = table_named table t && has_key kind column t

abbrev pub key_resolves : List Table → ColumnType → Option (String × String) → Bool
key_resolves ts kind none = true
key_resolves ts kind (some (table, column)) = any (is_target kind table column) ts

abbrev pub resolves : List Table → Column → Bool
resolves ts c = key_resolves ts c.kind c.foreign_key

abbrev pub names_table : String → Option (String × String) → Bool
names_table n none = false
names_table n (some (table, column)) = str_eq n table

-- A foreign key of the table names table `n`.
abbrev pub refers : String → Table → Bool
refers n t = any (λ (c : Column). names_table n c.foreign_key) t.columns

abbrev pub is_indexable : Index → Table → Bool
is_indexable i t = table_named i.table t && all (λ n. has_column n t) i.columns

-- The tables without the first one of the name
abbrev pub without : String → List Table → List Table
without n [] = []
without n (t ∷ ts) = let rest = without n ts in if table_named n t then ts else t ∷ rest

abbrev pub is_elsewhere : String → Index → Bool
is_elsewhere n i = not (str_eq n i.table)

-- `elim` leaves the other branch alone.
abbrev pub provided : Bool → Catalog → Option Catalog
provided test c = if test then some c else none

unfoldable pub apply : Operation → Catalog → Option Catalog
apply (create_table t) c =
    provided
      (is_sound t
        && not (taken t.name c)
        && not (any (constraint_taken c) t.unique_constraints)
        && all (resolves (t ∷ c.tables)) t.columns)
      (record c { tables = t ∷ c.tables })
apply (create_index i) c =
    provided (not (taken i.name c) && any (is_indexable i) c.tables)
      (record c { indexes = i ∷ c.indexes })
apply (drop_table n) c =
    provided (any (table_named n) c.tables && not (any (refers n) (without n c.tables)))
      (record { tables = without n c.tables; indexes = select (is_elsewhere n) c.indexes })

-- The operations one after the other; the first that fails ends the migration.
abbrev pub then_run : (Catalog → Option Catalog) → Option Catalog → Option Catalog
then_run rest none = none
then_run rest (some c) = rest c

unfoldable pub run : List Operation → Catalog → Option Catalog
run [] c = some c
run (o ∷ os) c = then_run (run os) (apply o c)

-- The server, and the library that sends it the operations. An operation whose conditions hold
-- succeeds and has its documented effect; nothing is said of the others.
pub record Migrator : Type 1 where
  pub State : Type 0
  pub view : State → Catalog
  pub execute : Operation → State → Option State
  pub execute_applies :
      (o : Operation) (s : State) (c : Catalog)
      → apply o (view s) ≡ some c
      → (s' : State) × (execute o s ≡ some s') × (view s' ≡ c)

module _ (m : Migrator) where
  open m use {State, execute}

  abbrev pub after_operation : (State → Option State) → Option State → Option State
  after_operation rest none = none
  after_operation rest (some s) = rest s

  -- What alembic does with the calls of `upgrade` or of `downgrade`: one after the other.
  unfoldable pub migrate : List Operation → State → Option State
  migrate [] s = some s
  migrate (o ∷ os) s = after_operation (migrate os) (execute o s)
