-- ===== src/Migrations/Examples.antt =====
-- The migration on a small database.
use mathlib.Core.List.{reverse}
use eventmesh.Base.{◌≡◌, refl, none, some, ◌++◌, map}
use eventmesh.Migrations.{Catalog, drop_table, apply, run, migrate}
use eventmesh.Migrations.Initial.{upgrade, downgrade}
use eventmesh.Migrations.Models.{model_tables, model_indexes}
use eventmesh.Migrations.RoundTrip.{migrate-downgrade}
use eventmesh.Migrations.Agreement.{migrated_table, migrate-upgrade_models}
use eventmesh.Migrations.Widths.{HoldsStates, migrate-HoldsStates}
use eventmesh.Migrations.Sample.{before, after, server, before-Spared, upgraded}

-- A second upgrade, and a table that others refer to, are refused.
refusals :
    (run upgrade after ≡ none)
    × (apply (drop_table "events") after ≡ none)
    × (run (upgrade ++ downgrade) before ≡ some before)
unfolding run apply
refusals = (refl, refl, refl)

migrate-downgrade_example :
    (up : Catalog) × (down : Catalog) × (migrate server upgrade before ≡ some up)
    × (migrate server downgrade up ≡ some down)
    × (down ≡ before)
migrate-downgrade_example = migrate-downgrade server before before-Spared

migrate-upgrade_models_example :
    (up : Catalog) × (migrate server upgrade before ≡ some up)
    × (up.tables ≡ reverse (map migrated_table model_tables) ++ before.tables)
    × (up.indexes ≡ reverse model_indexes ++ before.indexes)
migrate-upgrade_models_example = migrate-upgrade_models server before before-Spared

migrate-HoldsStates_example : HoldsStates after
migrate-HoldsStates_example = migrate-HoldsStates server before after before-Spared upgraded
