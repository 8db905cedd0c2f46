-- ===== src/Scheduler/Examples.antt =====
-- The scheduler on a small database.
use eventmesh.Base.{ℕ, true, [], ◌∷◌, ◌*◌, Zip}
use eventmesh.Database.{Tables}
use eventmesh.Database.Sample.{tables, dead_delivery}
use eventmesh.Messaging.Sample.{reliable, reliable-Appends}
use eventmesh.Scheduler.{RetentionSettings, requeue_round, cleanup_round}
use eventmesh.Scheduler.Requeue.{Requeued, requeue_round-Requeued}
use eventmesh.Scheduler.Retention.{OnlyExpiredGo, cleanup_round-OnlyExpiredGo}

abbrev retention : RetentionSettings
retention = record {
  retention_events_days = 30;
  retention_deliveries_days = 30;
  retention_dlq_days = 90;
}

abbrev dead_tables : Tables
dead_tables = record tables { deliveries = dead_delivery ∷ [] }

-- forty days after the event
abbrev later : ℕ
later = 40 * 86_400_000_000

requeue_round-Requeued_example :
    Zip
      (Requeued tables.events 3000 (requeue_round reliable (λ ds. ds) true 3000 (tables, [])).1)
      tables.deliveries
      (requeue_round reliable (λ ds. ds) true 3000 (tables, [])).0.deliveries
requeue_round-Requeued_example =
    requeue_round-Requeued reliable (λ ds. ds) true 3000 tables [] reliable-Appends (λ d ds m. m)
      (tt, tt)

cleanup_round-OnlyExpiredGo_example :
    OnlyExpiredGo retention later tables (cleanup_round retention later tables)
cleanup_round-OnlyExpiredGo_example = cleanup_round-OnlyExpiredGo retention later tables
