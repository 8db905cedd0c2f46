-- ===== src/Config/Examples.antt =====
-- The defaults at work.
use eventmesh.Base.{◌≡◌, refl, inl, [], ◌∷◌, arith}
use eventmesh.Database.{Tables}
use eventmesh.Database.Sample.{tables, order_event, dead_delivery}
use eventmesh.Scheduler.{cleanup_round}
use eventmesh.Config.{default_settings, retention_settings}
use eventmesh.Config.Defaults.{days, cleanup_round-default_settings}

abbrev dead_tables : Tables
dead_tables = record tables { deliveries = dead_delivery ∷ [] }

cleanup_round-default_settings_example :
    cleanup_round (retention_settings default_settings) (days 40) dead_tables ≡ dead_tables
cleanup_round-default_settings_example =
    cleanup_round-default_settings (days 40) dead_tables order_event dead_delivery (inl refl)
      (omega arith) (inl refl) refl refl (omega arith)
