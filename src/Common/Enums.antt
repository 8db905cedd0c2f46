-- ===== src/Common/Enums.antt =====
-- packages/common/eventmesh_common/enums.py: the states that the services store. A column that is
-- only ever written from one of these enums is modelled by it; `value` is the text of a member,
-- where the code compares texts.
use eventmesh.Base.{ℕ, String, List, [], ◌∷◌}

pub data EventStatus : Type 0 where
  received queued processing completed : EventStatus

pub data DeliveryStatus : Type 0 where
  pending queued delivering delivered retrying failed dlq : DeliveryStatus

pub data EndpointStatus : Type 0 where
  active disabled suspended : EndpointStatus

pub data CircuitState : Type 0 where
  closed opened half_open : CircuitState

pub data OutboxStatus : Type 0 where
  pending published failed : OutboxStatus

pub data TenantPlan : Type 0 where
  free pro enterprise : TenantPlan

pub data TenantStatus : Type 0 where
  active suspended : TenantStatus

pub data Role : Type 0 where
  owner admin member viewer : Role

-- `EventStatus.….value`
abbrev pub event_status_value : EventStatus → String
event_status_value EventStatus.received = "received"
event_status_value EventStatus.queued = "queued"
event_status_value EventStatus.processing = "processing"
event_status_value EventStatus.completed = "completed"

-- `DeliveryStatus.….value`
abbrev pub delivery_status_value : DeliveryStatus → String
delivery_status_value DeliveryStatus.pending = "pending"
delivery_status_value DeliveryStatus.queued = "queued"
delivery_status_value DeliveryStatus.delivering = "delivering"
delivery_status_value DeliveryStatus.delivered = "delivered"
delivery_status_value DeliveryStatus.retrying = "retrying"
delivery_status_value DeliveryStatus.failed = "failed"
delivery_status_value DeliveryStatus.dlq = "dlq"

-- `EndpointStatus.….value`
abbrev pub endpoint_status_value : EndpointStatus → String
endpoint_status_value EndpointStatus.active = "active"
endpoint_status_value EndpointStatus.disabled = "disabled"
endpoint_status_value EndpointStatus.suspended = "suspended"

-- `CircuitState.….value`
abbrev pub circuit_state_value : CircuitState → String
circuit_state_value CircuitState.closed = "closed"
circuit_state_value CircuitState.opened = "open"
circuit_state_value CircuitState.half_open = "half_open"

-- `OutboxStatus.….value`
abbrev pub outbox_status_value : OutboxStatus → String
outbox_status_value OutboxStatus.pending = "pending"
outbox_status_value OutboxStatus.published = "published"
outbox_status_value OutboxStatus.failed = "failed"

-- `TenantPlan.….value`
abbrev pub tenant_plan_value : TenantPlan → String
tenant_plan_value TenantPlan.free = "free"
tenant_plan_value TenantPlan.pro = "pro"
tenant_plan_value TenantPlan.enterprise = "enterprise"

-- `TenantStatus.….value`
abbrev pub tenant_status_value : TenantStatus → String
tenant_status_value TenantStatus.active = "active"
tenant_status_value TenantStatus.suspended = "suspended"

-- `Role.….value`
abbrev pub role_value : Role → String
role_value Role.owner = "owner"
role_value Role.admin = "admin"
role_value Role.member = "member"
role_value Role.viewer = "viewer"

abbrev pub permanent_4xx : List ℕ
permanent_4xx = 400 ∷ 401 ∷ 403 ∷ 422 ∷ []

abbrev pub retryable_4xx : List ℕ
retryable_4xx = 408 ∷ 409 ∷ 425 ∷ 429 ∷ []
