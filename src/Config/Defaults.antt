-- ===== src/Config/Defaults.antt =====
-- What the services do under the settings' defaults.
use eventmesh.Base.{ℕ, ◌+◌, ◌*◌, ◌^◌, ◌-◌, min, ◌≤◌, ◌<◌, ◌≡◌, refl, Has, none, some, arith}
use eventmesh.Base.Int.{ℤ}
use eventmesh.Common.Enums.{DeliveryStatus}
use eventmesh.Common.Retry.{exponential_delay}
use eventmesh.Common.Retry.Delays.{Uniform, exponential_delay_bounds}
use eventmesh.Database.{Event, Delivery, Tables}
use eventmesh.Scheduler.{cleanup_round}
use eventmesh.Scheduler.Retention.{cleanup_round_blocked}
use eventmesh.Config.{default_settings, engine_settings, retention_settings}

-- In microseconds
abbrev pub days : ℕ → ℕ
days n = n * 86_400_000_000

-- With the default retention, if an event is more than 30 days old, and a delivery of it is in the DLQ
-- and at most 90 days old, then a round of the cleanup deletes nothing at all.
pub cleanup_round-default_settings :
    (now : ℕ) (db : Tables) (e : Event) (d : Delivery)
    → Has e db.events
    → e.created_at + days 30 < now
    → Has d db.deliveries
    → d.event_id ≡ e.id
    → d.status ≡ DeliveryStatus.dlq
    → now ≤ d.created_at + days 90
    → cleanup_round (retention_settings default_settings) now db ≡ db
cleanup_round-default_settings now db e d m old n refers dead young =
    cleanup_round_blocked (retention_settings default_settings) now db e d m (ground arith) n
      (rw dead (ground arith)) refers

-- In microseconds, the delay of the default policy after the attempt, within a fifth
abbrev pub About : (seconds d : ℕ) → Type 0
About seconds d = (seconds * 800_000 ≤ d) × (d ≤ seconds * 1_200_000)

-- A delay of the default policy
abbrev pub Delays : (ℤ → ℤ → ℤ) → (attempt seconds : ℕ) → Type 0
Delays draw attempt seconds =
    (d : ℕ) × (exponential_delay (engine_settings default_settings).retry draw attempt ≡ some d)
    × About seconds d

policy_delay :
    (draw : ℤ → ℤ → ℤ) (attempt seconds d : ℕ)
    → Uniform draw
    → exponential_delay (engine_settings default_settings).retry draw attempt ≡ some d
    → min 32_000 (1000 * 2 ^ (attempt - 1)) ≡ 1000 * seconds
    → Delays draw attempt seconds
policy_delay draw attempt seconds d u e raw =
    let (low, high, capped) =
      exponential_delay_bounds (engine_settings default_settings).retry draw attempt u e in
    (d, e, (omega (arith, low, raw), omega (arith, high, raw)))

late_delay :
    (draw : ℤ → ℤ → ℤ) (attempt : ℕ)
    → 6 ≤ attempt
    → exponential_delay (engine_settings default_settings).retry draw attempt ≡ none
unfolding exponential_delay
late_delay draw attempt late = ground arith

-- With the default policy and a draw within its bounds, the first five failed attempts give delays
-- within a fifth of 1, 2, 4, 8 and 16 seconds, and no later one gives any.
pub exponential_delay-default_settings :
    (draw : ℤ → ℤ → ℤ)
    → Uniform draw
    → Delays draw 1 1
      × Delays draw 2 2
      × Delays draw 3 4
      × Delays draw 4 8
      × Delays draw 5 16
      × ((attempt : ℕ)
          → 6 ≤ attempt
          → exponential_delay (engine_settings default_settings).retry draw attempt ≡ none)
unfolding exponential_delay
exponential_delay-default_settings draw u = (
  policy_delay draw 1 1 _ u refl refl,
  policy_delay draw 2 2 _ u refl refl,
  policy_delay draw 3 4 _ u refl refl,
  policy_delay draw 4 8 _ u refl refl,
  policy_delay draw 5 16 _ u refl refl,
  late_delay draw,
)
