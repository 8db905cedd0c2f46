-- ===== src/Migrations/Widths.antt =====
-- Which values the columns of the migrated database can hold.
use Prim.Native.String.{count}
use eventmesh.Base.{◌≤◌, ◌<◌, String, ◌≡◌, Option, none, some, str_eq, find, All, arith}
use eventmesh.Base.Int.{ℤ, pos, negsuc}
use eventmesh.Common.Enums.{
  EventStatus, event_status_value, DeliveryStatus, delivery_status_value, EndpointStatus,
  endpoint_status_value, CircuitState, circuit_state_value, OutboxStatus, outbox_status_value,
  TenantPlan, tenant_plan_value, TenantStatus, tenant_status_value, Role, role_value,
}
use eventmesh.Migrations.{
  ColumnType, text, integer, big_integer, string, Column, Table, Catalog, table_named, apply, run,
  Migrator, migrate,
}
use eventmesh.Migrations.Frame.{Spared, names_in, beside}
use eventmesh.Migrations.Initial.{upgrade}
use eventmesh.Migrations.RoundTrip.{schema, migrate-upgrade}

-- `VARCHAR(n)` holds n characters, `TEXT` any number.
abbrev pub TextFits : ColumnType → String → Type 0
TextFits (string n) value = count value ≤ n
TextFits text value = Unit
TextFits _ value = ⊥

-- `BIGINT` holds 64 bits, `INTEGER` 32, of which one is the sign.
abbrev pub NumberFits : ColumnType → ℤ → Type 0
NumberFits big_integer (pos n) = n < 9_223_372_036_854_775_808
NumberFits big_integer (negsuc n) = n < 9_223_372_036_854_775_808
NumberFits integer (pos n) = n < 2_147_483_648
NumberFits integer (negsuc n) = n < 2_147_483_648
NumberFits _ value = ⊥

abbrev pub kind_in : String → Option Table → Option Column
kind_in column none = none
kind_in column (some t) = find (λ (c : Column). str_eq column c.name) t.columns

abbrev pub Holds {ℓ} : {A : Type ℓ} → (ColumnType → A → Type 0) → A → Option Column → Type 0
Holds P value none = ⊥
Holds P value (some c) = P c.kind value

-- The catalog has the column, and the value fits it.
abbrev pub CanHold {ℓ} :
    {A : Type ℓ} → (ColumnType → A → Type 0) → Catalog → String → String → A → Type 0
CanHold P c table column value = Holds P value (kind_in column (find (table_named table) c.tables))

-- The values of the enumerations in the columns that hold them
pub record HoldsStates (c : Catalog) : Type 0 where
  pub events : (s : EventStatus) → CanHold TextFits c "events" "status" (event_status_value s)
  pub deliveries :
      (s : DeliveryStatus) → CanHold TextFits c "deliveries" "status" (delivery_status_value s)
  pub endpoints :
      (s : EndpointStatus) → CanHold TextFits c "endpoints" "status" (endpoint_status_value s)
  pub circuits :
      (s : CircuitState) → CanHold TextFits c "endpoints" "circuit_state" (circuit_state_value s)
  pub outbox :
      (s : OutboxStatus) → CanHold TextFits c "outbox_events" "status" (outbox_status_value s)
  pub plans : (p : TenantPlan) → CanHold TextFits c "tenants" "plan" (tenant_plan_value p)
  pub tenants : (s : TenantStatus) → CanHold TextFits c "tenants" "status" (tenant_status_value s)
  pub roles : (r : Role) → CanHold TextFits c "api_keys" "role" (role_value r)

event_status_short : (s : EventStatus) → count (event_status_value s) ≤ 10
event_status_short EventStatus.received = omega arith
event_status_short EventStatus.queued = omega arith
event_status_short EventStatus.processing = omega arith
event_status_short EventStatus.completed = omega arith

delivery_status_short : (s : DeliveryStatus) → count (delivery_status_value s) ≤ 10
delivery_status_short DeliveryStatus.pending = omega arith
delivery_status_short DeliveryStatus.queued = omega arith
delivery_status_short DeliveryStatus.delivering = omega arith
delivery_status_short DeliveryStatus.delivered = omega arith
delivery_status_short DeliveryStatus.retrying = omega arith
delivery_status_short DeliveryStatus.failed = omega arith
delivery_status_short DeliveryStatus.dlq = omega arith

endpoint_status_short : (s : EndpointStatus) → count (endpoint_status_value s) ≤ 10
endpoint_status_short EndpointStatus.active = omega arith
endpoint_status_short EndpointStatus.disabled = omega arith
endpoint_status_short EndpointStatus.suspended = omega arith

circuit_state_short : (s : CircuitState) → count (circuit_state_value s) ≤ 10
circuit_state_short CircuitState.closed = omega arith
circuit_state_short CircuitState.opened = omega arith
circuit_state_short CircuitState.half_open = omega arith

outbox_status_short : (s : OutboxStatus) → count (outbox_status_value s) ≤ 10
outbox_status_short OutboxStatus.pending = omega arith
outbox_status_short OutboxStatus.published = omega arith
outbox_status_short OutboxStatus.failed = omega arith

tenant_plan_short : (s : TenantPlan) → count (tenant_plan_value s) ≤ 10
tenant_plan_short TenantPlan.free = omega arith
tenant_plan_short TenantPlan.pro = omega arith
tenant_plan_short TenantPlan.enterprise = omega arith

tenant_status_short : (s : TenantStatus) → count (tenant_status_value s) ≤ 10
tenant_status_short TenantStatus.active = omega arith
tenant_status_short TenantStatus.suspended = omega arith

role_short : (s : Role) → count (role_value s) ≤ 10
role_short Role.owner = omega arith
role_short Role.admin = omega arith
role_short Role.member = omega arith
role_short Role.viewer = omega arith

beside-HoldsStates : (b : Catalog) → HoldsStates (beside b schema)
unfolding run apply
beside-HoldsStates b = record {
  events = λ s. omega (arith, event_status_short s);
  deliveries = λ s. omega (arith, delivery_status_short s);
  endpoints = λ s. omega (arith, endpoint_status_short s);
  circuits = λ s. omega (arith, circuit_state_short s);
  outbox = λ s. omega (arith, outbox_status_short s);
  plans = λ s. omega (arith, tenant_plan_short s);
  tenants = λ s. omega (arith, tenant_status_short s);
  roles = λ s. omega (arith, role_short s);
}

-- What `upgrade` left, by the state after it.
pub migrate-upgrade_view :
    (m : Migrator) (s up : m.State)
    → All (Spared (m.view s)) (names_in upgrade)
    → migrate m upgrade s ≡ some up
    → m.view up ≡ beside (m.view s) schema
migrate-upgrade_view m s up spared e =
    let (t, done, made) = migrate-upgrade m s spared in
    let same : t ≡ up = cc (e, done) in rw same at made

-- After `upgrade`, on a database without a relation of the schema's names, and without a foreign key or
-- an index on a table of such a name, every value of the enumerations fits the column of its table.
pub migrate-HoldsStates :
    (m : Migrator) (s up : m.State)
    → All (Spared (m.view s)) (names_in upgrade)
    → migrate m upgrade s ≡ some up
    → HoldsStates (m.view up)
migrate-HoldsStates m s up spared e =
    rw (migrate-upgrade_view m s up spared e) (beside-HoldsStates (m.view s))
