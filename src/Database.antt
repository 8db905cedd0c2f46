-- ===== src/Database.antt =====
-- packages/database/eventmesh_database/models.py: a record for each table, and the whole database
-- as the lists of its rows. Ids and times are numbers (times in microseconds); a JSON column holds
-- its text, which the program never reads.
pub mod Sample
use eventmesh.Base.{ℕ, String, Bool, Option, List, ◌==◌, find, update}
use eventmesh.Base.Int.{ℤ}
use eventmesh.Common.Enums.{EventStatus, DeliveryStatus, OutboxStatus, CircuitState}
use eventmesh.Common.Classify.{Reason}
use eventmesh.Common.Ssrf.{SsrfError}

-- `Tenant`
pub record Tenant : Type 0 where
  pub id : ℕ
  pub name : String
  pub plan : String
  pub status : String

-- `ApiKey`
pub record ApiKey : Type 0 where
  pub id : ℕ
  pub tenant_id : ℕ
  pub key_prefix : String
  pub key_hash : String
  pub name : String
  pub role : String
  pub last_used_at : Option ℕ
  pub revoked_at : Option ℕ

-- `Endpoint`; its status is whatever text a client has set.
pub record Endpoint : Type 0 where
  pub id : ℕ
  pub tenant_id : ℕ
  pub url : String
  pub description : Option String
  pub secret_encrypted : String
  pub status : String
  pub timeout_ms : ℤ
  pub max_retries : ℤ
  pub circuit_state : CircuitState
  pub created_at : ℕ

-- `EndpointSubscription`
pub record EndpointSubscription : Type 0 where
  pub endpoint_id : ℕ
  pub event_type : String

-- `Event`
pub record Event : Type 0 where
  pub id : ℕ
  pub tenant_id : ℕ
  pub event_type : String
  pub source : Option String
  pub entity_id : Option String
  pub sequence_number : Option ℤ
  pub payload : String
  pub status : EventStatus
  pub created_at : ℕ

-- The two forms of `Delivery.error_message`.
pub data ErrorMessage : Type 0 where
  classified : Reason → ErrorMessage
  ssrf_failed : SsrfError → ErrorMessage

-- `Delivery`
pub record Delivery : Type 0 where
  pub id : ℕ
  pub event_id : ℕ
  pub endpoint_id : ℕ
  pub attempt_number : ℕ
  pub status : DeliveryStatus
  pub http_status : Option ℕ
  pub latency_ms : Option ℕ
  pub error_message : Option ErrorMessage
  pub started_at : Option ℕ
  pub completed_at : Option ℕ
  pub next_retry_at : Option ℕ
  pub is_replay : Bool
  pub created_at : ℕ

-- `IdempotencyKey`
pub record IdempotencyKey : Type 0 where
  pub id : ℕ
  pub tenant_id : ℕ
  pub key : String
  pub event_id : ℕ
  pub expires_at : ℕ

-- The dictionary that travels from the outbox to the worker, as `json.dumps` and `json.loads`
-- preserve it: a key that may be absent is an option.
pub record Payload : Type 0 where
  pub event_id : ℕ
  pub tenant_id : ℕ
  pub event_type : String
  pub entity_id : Option String
  pub sequence : Option ℤ
  pub content : String
  pub created_at : ℕ
  pub is_replay : Bool
  pub target_endpoint_id : Option ℕ
  pub retry_attempt_number : Option ℕ

-- `OutboxEvent`
pub record OutboxEvent : Type 0 where
  pub id : ℕ
  pub aggregate_type : String
  pub aggregate_id : ℕ
  pub event_id : ℕ
  pub payload : Payload
  pub status : OutboxStatus
  pub attempts : ℕ
  pub created_at : ℕ
  pub published_at : Option ℕ

-- The committed database.
pub record Tables : Type 0 where
  pub tenants : List Tenant
  pub api_keys : List ApiKey
  pub endpoints : List Endpoint
  pub subscriptions : List EndpointSubscription
  pub events : List Event
  pub deliveries : List Delivery
  pub idempotency_keys : List IdempotencyKey
  pub outbox : List OutboxEvent

-- `session.get(Event, …)`, and so for the other tables
abbrev pub get_event : ℕ → Tables → Option Event
get_event i db = find (λ (e : Event). e.id == i) db.events

abbrev pub get_endpoint : ℕ → Tables → Option Endpoint
get_endpoint i db = find (λ (e : Endpoint). e.id == i) db.endpoints

abbrev pub get_delivery : ℕ → Tables → Option Delivery
get_delivery i db = find (λ (d : Delivery). d.id == i) db.deliveries

abbrev pub get_tenant : ℕ → Tables → Option Tenant
get_tenant i db = find (λ (t : Tenant). t.id == i) db.tenants

-- What a session writes of a changed row, by its primary key.
abbrev pub set_event : ℕ → (Event → Event) → Tables → Tables
set_event i f db = record db { events = update (λ e. e.id == i) f db.events }

abbrev pub set_endpoint : ℕ → (Endpoint → Endpoint) → Tables → Tables
set_endpoint i f db = record db { endpoints = update (λ e. e.id == i) f db.endpoints }

abbrev pub set_delivery : ℕ → (Delivery → Delivery) → Tables → Tables
set_delivery i f db = record db { deliveries = update (λ d. d.id == i) f db.deliveries }

abbrev pub set_outbox : ℕ → (OutboxEvent → OutboxEvent) → Tables → Tables
set_outbox i f db = record db { outbox = update (λ o. o.id == i) f db.outbox }
