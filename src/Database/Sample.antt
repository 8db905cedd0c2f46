-- ===== src/Database/Sample.antt =====
-- A small database for tests: one tenant with one event, one endpoint and one outbox row.
use eventmesh.Base.{false, none, some, [], ◌∷◌}
use eventmesh.Base.Int.{pos}
use eventmesh.Common.Enums.{EventStatus, DeliveryStatus, OutboxStatus, CircuitState}
use eventmesh.Common.Ssrf.Sample.{hook_url}
use eventmesh.Database.{Event, Endpoint, Delivery, OutboxEvent, Payload, Tables}

abbrev pub order_event : Event
order_event = record {
  id = 7;
  tenant_id = 1;
  event_type = "order.created";
  source = none;
  entity_id = none;
  sequence_number = none;
  payload = "{}";
  status = EventStatus.received;
  created_at = 1000;
}

abbrev pub hook : Endpoint
hook = record {
  id = 3;
  tenant_id = 1;
  url = hook_url;
  description = none;
  secret_encrypted = "secret";
  status = "active";
  timeout_ms = pos 10_000;
  max_retries = pos 6;
  circuit_state = CircuitState.closed;
  created_at = 10;
}

abbrev pub order_payload : Payload
order_payload = record {
  event_id = 7;
  tenant_id = 1;
  event_type = "order.created";
  entity_id = none;
  sequence = none;
  content = "{}";
  created_at = 1000;
  is_replay = false;
  target_endpoint_id = some 3;
  retry_attempt_number = some 4;
}

abbrev pub order_row : OutboxEvent
order_row = record {
  id = 5;
  aggregate_type = "event";
  aggregate_id = 7;
  event_id = 7;
  payload = order_payload;
  status = OutboxStatus.pending;
  attempts = 0;
  created_at = 1000;
  published_at = none;
}

-- a failed delivery of the event, with its retry due at 2000
abbrev pub failed_delivery : Delivery
failed_delivery = record {
  id = 9;
  event_id = 7;
  endpoint_id = 3;
  attempt_number = 1;
  status = DeliveryStatus.retrying;
  http_status = some 500;
  latency_ms = some 12;
  error_message = none;
  started_at = some 1001;
  completed_at = some 1013;
  next_retry_at = some 2000;
  is_replay = false;
  created_at = 1001;
}

abbrev pub dead_delivery : Delivery
dead_delivery = record failed_delivery { status = DeliveryStatus.dlq }

abbrev pub tables : Tables
tables = record {
  tenants = [];
  api_keys = [];
  endpoints = hook ∷ [];
  subscriptions = record { endpoint_id = 3; event_type = "order.created" } ∷ [];
  events = order_event ∷ [];
  deliveries = failed_delivery ∷ [];
  idempotency_keys = [];
  outbox = order_row ∷ [];
}
