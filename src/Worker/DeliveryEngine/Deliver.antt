-- ===== src/Worker/DeliveryEngine/Deliver.antt =====
-- apps/worker/eventmesh_worker/delivery_engine.py: one delivery, and the fan-out of one payload.
use eventmesh.Base.{
  ℕ, suc, Bool, true, false, Option, none, some, List, [], ◌∷◌, ◌++◌, Result, ok, err,
}
use eventmesh.Base.Int.{pos}
use eventmesh.Common.Enums.{EventStatus, DeliveryStatus}
use eventmesh.Common.CircuitBreaker.{CircuitBreaker, allow_request}
use eventmesh.Common.Classify.{Outcome, classify_response}
use eventmesh.Common.Ssrf.{SsrfError, validate_webhook_url}
use eventmesh.Auth.Signature.{build_signature_header}
use eventmesh.Database.{
  Event, Endpoint, Delivery, ErrorMessage, Payload, get_event, get_endpoint, set_event,
  set_delivery,
}
use eventmesh.Worker.DeliveryEngine.{
  Settings, Codecs, HttpReply, Attempt, Request, Metric, World, DeliveryOutcomeSummary, EngineError,
  emit, summary, load_circuit_breaker, started_delivery, add_delivery, schedule_retry,
}
use eventmesh.Worker.DeliveryEngine.Resolve.{resolve_endpoints}
use eventmesh.Worker.DeliveryEngine.Settle.{settle}

-- The row of a delivery whose URL was refused.
abbrev pub refused_row : SsrfError → Attempt → Delivery → Delivery
refused_row e a d = record d {
  status = DeliveryStatus.dlq;
  error_message = some (ErrorMessage.ssrf_failed e);
  completed_at = some a.completed_at;
}

-- `summaries.append(outcome)` and the rest of the loop; an exception ends it.
abbrev pub append_summary :
    Result EngineError DeliveryOutcomeSummary
    → World
    → Result EngineError (List DeliveryOutcomeSummary) × World
    → Result EngineError (List DeliveryOutcomeSummary) × World
append_summary (err e) w1 rest = (err e, w1)
append_summary (ok s) w1 (err e, w2) = (err e, w2)
append_summary (ok s) w1 (ok ss, w2) = (ok (s ∷ ss), w2)

module _ (settings : Settings) (codecs : Codecs) where
  -- The request for a delivery, once the secret is decrypted.
  abbrev pub request_of : Attempt → ℕ → ℕ → Event → Endpoint → Delivery → List ℕ → Request
  request_of a event_id n event endpoint d secret =
      let body = codecs.dumps (record {
        event_id = event_id;
        delivery_id = d.id;
        attempt_number = n;
        event_type = event.event_type;
        content = event.payload;
      }) in
      record {
        url = endpoint.url;
        content = body;
        signature = build_signature_header codecs.hmac_sha256 secret body (pos a.signed_at);
        event_id = event_id;
        delivery_id = d.id;
      }

  -- From the POST on, by what it does.
  unfoldable pub post :
      HttpReply
      → Attempt
      → ℕ
      → ℕ
      → ℕ
      → Event
      → Delivery
      → CircuitBreaker
      → World
      → Result EngineError DeliveryOutcomeSummary × World
  post (HttpReply.response s) a event_id endpoint_id n event d cb w =
      settle settings a event_id endpoint_id n event d cb (some s)
        (classify_response (some s) false false) w
  post HttpReply.timeout_exception a event_id endpoint_id n event d cb w =
      settle settings a event_id endpoint_id n event d cb none (classify_response none true false) w
  post HttpReply.transport_error a event_id endpoint_id n event d cb w =
      settle settings a event_id endpoint_id n event d cb none (classify_response none false true) w
  post HttpReply.other_exception a event_id endpoint_id n event d cb w =
      (err EngineError.http_error, w)

  -- From the decryption on: the request, by the secret that came out.
  unfoldable pub send :
      Option (List ℕ)
      → Attempt
      → ℕ
      → ℕ
      → ℕ
      → Event
      → Endpoint
      → Delivery
      → CircuitBreaker
      → World
      → Result EngineError DeliveryOutcomeSummary × World
  send none a event_id endpoint_id n event endpoint d cb w = (err EngineError.invalid_token, w)
  send (some secret) a event_id endpoint_id n event endpoint d cb w =
      post a.reply a event_id endpoint_id n event d cb
        (record w { sent = w.sent ++ request_of a event_id n event endpoint d secret ∷ [] })

  -- From the check of the URL on, by its answer.
  unfoldable pub check_and_send :
      Result SsrfError (Unit {0})
      → Attempt
      → ℕ
      → ℕ
      → ℕ
      → Event
      → Endpoint
      → Delivery
      → CircuitBreaker
      → World
      → Result EngineError DeliveryOutcomeSummary × World
  check_and_send (err e) a event_id endpoint_id n event endpoint d cb w = (
    ok (summary endpoint_id Outcome.permanent_failure none),
    record w { db = set_delivery d.id (λ _. refused_row e a d) w.db },
  )
  check_and_send (ok _) a event_id endpoint_id n event endpoint d cb w =
      send (codecs.decrypt_secret endpoint.secret_encrypted) a event_id endpoint_id n event endpoint
        d cb w

  -- From the circuit breaker's answer on.
  unfoldable pub attempt_delivery :
      Bool × CircuitBreaker
      → Attempt
      → ℕ
      → ℕ
      → ℕ
      → Event
      → Endpoint
      → World
      → Result EngineError DeliveryOutcomeSummary × World
  attempt_delivery (false, cb) a event_id endpoint_id n event endpoint w = (
    ok (summary endpoint_id Outcome.retry none),
    record w { db = schedule_retry event_id endpoint_id n settings.circuit_open_duration a w.db },
  )
  attempt_delivery (true, cb) a event_id endpoint_id n event endpoint w =
      let d = started_delivery event_id endpoint_id n a in
      check_and_send (validate_webhook_url a.network endpoint.url settings.max_endpoint_url_length)
        a event_id endpoint_id n event endpoint d cb
        (emit (Metric.deliveries_total event.event_type) (record w { db = add_delivery d w.db }))

  -- `_deliver_to_endpoint`, by the event and the endpoint that were loaded
  unfoldable pub deliver_loaded :
      Option Event
      → Option Endpoint
      → Attempt
      → ℕ
      → ℕ
      → ℕ
      → World
      → Result EngineError DeliveryOutcomeSummary × World
  deliver_loaded (some event) (some endpoint) a event_id endpoint_id n w =
      attempt_delivery (allow_request a.asked_at (load_circuit_breaker settings endpoint)) a
        event_id endpoint_id n event endpoint w
  deliver_loaded _ _ a event_id endpoint_id n w =
      (ok (summary endpoint_id Outcome.permanent_failure none), w)

  unfoldable pub deliver_to_endpoint :
      Attempt → ℕ → ℕ → ℕ → World → Result EngineError DeliveryOutcomeSummary × World
  deliver_to_endpoint a event_id endpoint_id n w =
      deliver_loaded (get_event event_id w.db) (get_endpoint endpoint_id w.db) a event_id
        endpoint_id n w

  -- The loop over the endpoints, with the attempt number that it passes.
  unfoldable pub deliver_all :
      (ℕ → Attempt)
      → ℕ
      → ℕ
      → List ℕ
      → World
      → Result EngineError (List DeliveryOutcomeSummary) × World
  deliver_all attempts i event_id [] w = (ok [], w)
  deliver_all attempts i event_id (endpoint_id ∷ rest) w =
      let (r, w1) = deliver_to_endpoint (attempts i) event_id endpoint_id 1 w in
      append_summary r w1 (deliver_all attempts (suc i) event_id rest w1)

  -- From the resolution of the endpoints on.
  unfoldable pub fan_out :
      List ℕ → (ℕ → Attempt) → ℕ → World → Result EngineError (List DeliveryOutcomeSummary) × World
  fan_out [] attempts event_id w = (ok [], w)
  fan_out (first ∷ rest) attempts event_id w =
      deliver_all attempts 0 event_id (first ∷ rest) (record w {
        db = set_event event_id (λ e. record e { status = EventStatus.processing }) w.db;
      })

  -- `process_outbox_payload`, by the event that was loaded
  unfoldable pub process_loaded :
      Option Event
      → (ℕ → Attempt)
      → Payload
      → World
      → Result EngineError (List DeliveryOutcomeSummary) × World
  process_loaded none attempts payload w = (ok [], w)
  process_loaded (some event) attempts payload w =
      fan_out
        (resolve_endpoints payload.tenant_id payload.event_type payload.target_endpoint_id w.db)
        attempts payload.event_id w

  unfoldable pub process_outbox_payload :
      (ℕ → Attempt) → Payload → World → Result EngineError (List DeliveryOutcomeSummary) × World
  process_outbox_payload attempts payload w =
      process_loaded (get_event payload.event_id w.db) attempts payload w
