-- ===== src/Worker/DeliveryEngine.antt =====
-- apps/worker/eventmesh_worker/delivery_engine.py. What one call for an endpoint meets (clocks, ids,
-- the name server, the endpoint's answer) is an `Attempt`; the decryption of secrets, HMAC and
-- `json.dumps` are the fields of `Codecs`. Durations are in microseconds.
pub mod Resolve
pub mod Settle
pub mod Deliver
pub mod Outcomes
pub mod Effects
pub mod Fanout
pub mod Circuit
pub mod Attempts
pub mod Retries
pub mod Sending
pub mod Verified
pub mod Sample
pub mod Resolving
pub mod Completion
mod Examples
use eventmesh.Base.{
  ℕ, zero, suc, ◌+◌, String, Bool, true, false, ◌&&◌, not, Option, none, some, List, [], ◌∷◌, ◌++◌,
  map, ◌==◌, str_eq, if◌then◌else◌, any, all, select, is_some, Result, ok, err,
}
use eventmesh.Base.Int.{ℤ}
use eventmesh.Common.Enums.{
  EventStatus, DeliveryStatus, EndpointStatus, CircuitState, endpoint_status_value,
}
use eventmesh.Common.CircuitBreaker.{
  CircuitBreaker, new_breaker, allow_request, record_success, record_failure,
}
use eventmesh.Common.Classify.{Outcome, ClassificationResult, classify_response}
use eventmesh.Common.Retry.{ExponentialBackoffPolicy, RetryPolicy, next_delay}
use eventmesh.Common.Ssrf.{Network, validate_webhook_url}
use eventmesh.Auth.Signature.{build_signature_header}
use eventmesh.Database.{
  Event, Endpoint, EndpointSubscription, Delivery, ErrorMessage, Payload, Tables, get_event,
  get_endpoint, set_event, set_endpoint, set_delivery,
}

-- The settings that the engine reads.
pub record Settings : Type 0 where
  pub max_endpoint_url_length : ℕ
  pub circuit_failure_threshold : ℕ
  pub circuit_open_duration : ℕ
  pub circuit_half_open_max_requests : ℕ
  pub retry : ExponentialBackoffPolicy

-- The dictionary that the engine dumps as the body of a request.
pub record Body : Type 0 where
  pub event_id : ℕ
  pub delivery_id : ℕ
  pub attempt_number : ℕ
  pub event_type : String
  pub content : String

-- `decrypt_secret_fn` (`none`: it raises), HMAC, and `json.dumps(…).encode()`.
pub record Codecs : Type 0 where
  pub decrypt_secret : String → Option (List ℕ)
  pub hmac_sha256 : List ℕ → List ℕ → List ℕ
  pub dumps : Body → List ℕ

-- What `self._http_client.post` does: the answer's status, or the class of what it raises.
pub data HttpReply : Type 0 where
  response : ℕ → HttpReply
  timeout_exception transport_error other_exception : HttpReply

-- What one call of `_deliver_to_endpoint` meets.
pub record Attempt : Type 0 where
  pub new_id : ℕ
  pub created_at : ℕ
  pub asked_at : ℕ
  pub failed_at : ℕ
  pub started_at : ℕ
  pub signed_at : ℕ
  pub completed_at : ℕ
  pub scheduled_at : ℕ
  pub latency_ms : ℕ
  pub network : Network
  pub reply : HttpReply
  pub draw : ℤ → ℤ → ℤ

-- A request that was handed to the HTTP client.
pub record Request : Type 0 where
  pub url : String
  pub content : List ℕ
  pub signature : List ℕ
  pub event_id : ℕ
  pub delivery_id : ℕ

-- A counter that was incremented, or a latency that was observed.
pub data Metric : Type 0 where
  deliveries_total delivery_success_total delivery_retry_total : String → Metric
  delivery_failure_total : String → Outcome → Metric
  delivery_latency : String → ℕ → Metric
  circuit_breaker_open_total : Metric

-- The committed database, the requests sent and the metrics, in order.
pub record World : Type 0 where
  pub db : Tables
  pub sent : List Request
  pub metrics : List Metric

-- `DeliveryOutcomeSummary`
pub record DeliveryOutcomeSummary : Type 0 where
  pub endpoint_id : ℕ
  pub outcome : Outcome
  pub http_status : Option ℕ

-- What the engine lets through: an exception of the decryption, or another one of the client.
pub data EngineError : Type 0 where
  invalid_token http_error : EngineError

-- `metric.inc()`
abbrev pub emit : Metric → World → World
emit m w = record w { metrics = w.metrics ++ m ∷ [] }

-- `DeliveryOutcomeSummary(endpoint_id, outcome, status)`
abbrev pub summary : ℕ → Outcome → Option ℕ → DeliveryOutcomeSummary
summary endpoint_id o status = record {
  endpoint_id = endpoint_id;
  outcome = o;
  http_status = status;
}

-- `_load_circuit_breaker`
unfoldable pub load_circuit_breaker : Settings → Endpoint → CircuitBreaker
load_circuit_breaker settings endpoint =
    let cb =
      new_breaker settings.circuit_failure_threshold settings.circuit_open_duration
        settings.circuit_half_open_max_requests in
    record cb {
      state = record {
        state = endpoint.circuit_state;
        consecutive_failures = cb.state.consecutive_failures;
        opened_at = cb.state.opened_at;
        half_open_probe_in_flight = cb.state.half_open_probe_in_flight;
      };
    }

-- `_save_circuit_breaker`
unfoldable pub save_circuit_breaker : ℕ → CircuitBreaker → Tables → Tables
save_circuit_breaker endpoint_id cb =
    set_endpoint endpoint_id λ e. record e { circuit_state = cb.state.state }

-- The row that `_schedule_retry` adds.
abbrev pub scheduled_delivery : ℕ → ℕ → ℕ → ℕ → Attempt → Delivery
scheduled_delivery event_id endpoint_id attempt_number delay a = record {
  id = a.new_id;
  event_id = event_id;
  endpoint_id = endpoint_id;
  attempt_number = attempt_number;
  status = DeliveryStatus.retrying;
  http_status = none;
  latency_ms = none;
  error_message = none;
  started_at = none;
  completed_at = none;
  next_retry_at = some (a.scheduled_at + delay);
  is_replay = false;
  created_at = a.created_at;
}

-- The row that `_deliver_to_endpoint` adds before it sends.
abbrev pub started_delivery : ℕ → ℕ → ℕ → Attempt → Delivery
started_delivery event_id endpoint_id attempt_number a = record {
  id = a.new_id;
  event_id = event_id;
  endpoint_id = endpoint_id;
  attempt_number = attempt_number;
  status = DeliveryStatus.delivering;
  http_status = none;
  latency_ms = none;
  error_message = none;
  started_at = some a.started_at;
  completed_at = none;
  next_retry_at = none;
  is_replay = false;
  created_at = a.created_at;
}

-- `session.add(delivery); await session.commit()`
abbrev pub add_delivery : Delivery → Tables → Tables
add_delivery d db = record db { deliveries = db.deliveries ++ d ∷ [] }

-- `_schedule_retry`
unfoldable pub schedule_retry : ℕ → ℕ → ℕ → ℕ → Attempt → Tables → Tables
schedule_retry event_id endpoint_id attempt_number delay a =
    add_delivery (scheduled_delivery event_id endpoint_id attempt_number delay a)

-- `status in {DELIVERED, DLQ}`
abbrev pub is_terminal : DeliveryStatus → Bool
is_terminal DeliveryStatus.delivered = true
is_terminal DeliveryStatus.dlq = true
is_terminal _ = false

-- `_maybe_complete_event`, on the session's view, which the query flushes first
unfoldable pub maybe_complete_event : ℕ → Tables → Tables
maybe_complete_event event_id db =
    let rows = select (λ (d : Delivery). d.event_id == event_id) db.deliveries in
    if any (λ _. true) rows && all (λ d. is_terminal d.status) rows
    then set_event event_id (λ e. record e { status = EventStatus.completed }) db
    else db
