-- ===== src/Worker/DeliveryEngine/Effects.antt =====
-- What one call of `_deliver_to_endpoint` may do to the database and to the requests sent, as a
-- relation between the world before and after it, and that it does one of these.
use eventmesh.Base.{
  ℕ, ◌≡◌, refl, ◌∙◌, ap, ◌⊎◌, inl, inr, Bool, true, false, Option, none, some, List, [], ◌∷◌, ◌++◌,
  Result, ok, err,
}
use eventmesh.Common.CircuitBreaker.{CircuitBreaker, allow_request}
use eventmesh.Common.Classify.{ClassificationResult}
use eventmesh.Common.Ssrf.{SsrfError, validate_webhook_url}
use eventmesh.Database.{Event, Endpoint, Delivery, Tables, get_event, get_endpoint, set_delivery}
use eventmesh.Worker.DeliveryEngine.{
  Settings, Codecs, HttpReply, Attempt, Request, World, load_circuit_breaker, Metric, emit,
  started_delivery, add_delivery, schedule_retry,
}
use eventmesh.Worker.DeliveryEngine.Settle.{answered, settle}
use eventmesh.Worker.DeliveryEngine.Deliver.{
  request_of, refused_row, post, send, check_and_send, attempt_delivery, deliver_loaded,
  deliver_to_endpoint,
}
use eventmesh.Worker.DeliveryEngine.Outcomes.{classified_as, settled_tables, settle_outcome-tables}

module _ (settings : Settings) (codecs : Codecs) (a : Attempt) (event_id endpoint_id n : ℕ)
    (w : World) where
  -- the new row, and the database that holds it
  abbrev pub new_row : Delivery
  new_row = started_delivery event_id endpoint_id n a

  abbrev pub with_row : Tables
  with_row = add_delivery new_row w.db

  -- The event and the endpoint are there, the circuit breaker let the request pass, the URL was
  -- accepted and the secret decrypted.
  pub record Cleared : Type 0 where
    pub event : Event
    pub endpoint : Endpoint
    pub cb : CircuitBreaker
    pub secret : List ℕ
    pub found_event : get_event event_id w.db ≡ some event
    pub found : get_endpoint endpoint_id w.db ≡ some endpoint
    pub allowed : allow_request a.asked_at (load_circuit_breaker settings endpoint) ≡ (true, cb)
    pub accepted :
        validate_webhook_url a.network endpoint.url settings.max_endpoint_url_length ≡ ok tt
    pub decrypted : codecs.decrypt_secret endpoint.secret_encrypted ≡ some secret

  -- The requests sent, once the request is.
  abbrev pub with_request : Cleared → List Request
  with_request c =
      w.sent ++ request_of settings codecs a event_id n c.event c.endpoint new_row c.secret ∷ []

  -- What the call may have made of the world `w`.
  pub data Effect (w' : World) : Type 0 where
    missing :
        (get_event event_id w.db ≡ none) ⊎ (get_endpoint endpoint_id w.db ≡ none)
        → w'.db ≡ w.db
        → w'.sent ≡ w.sent
        → Effect w'
    held :
        (endpoint : Endpoint) (cb : CircuitBreaker)
        → get_endpoint endpoint_id w.db ≡ some endpoint
        → allow_request a.asked_at (load_circuit_breaker settings endpoint) ≡ (false, cb)
        → w'.db ≡ schedule_retry event_id endpoint_id n settings.circuit_open_duration a w.db
        → w'.sent ≡ w.sent
        → Effect w'
    refused :
        (endpoint : Endpoint) (e : SsrfError)
        → get_endpoint endpoint_id w.db ≡ some endpoint
        → validate_webhook_url a.network endpoint.url settings.max_endpoint_url_length ≡ err e
        → w'.db ≡ set_delivery a.new_id (λ _. refused_row e a new_row) with_row
        → w'.sent ≡ w.sent
        → Effect w'
    undecrypted : w'.db ≡ with_row → w'.sent ≡ w.sent → Effect w'
    aborted : (c : Cleared) → w'.db ≡ with_row → w'.sent ≡ with_request c → Effect w'
    settled :
        (c : Cleared) (status : Option ℕ) (result : ClassificationResult)
        → classified_as a.reply ≡ some (status, result)
        → w'.db
          ≡ settled_tables settings a result.outcome event_id endpoint_id n
              (answered a status new_row)
              c.cb
              result
              with_row
        → w'.sent ≡ with_request c
        → Effect w'

  settle-Effect :
      (c : Cleared) (status : Option ℕ) (result : ClassificationResult) (w1 : World)
      → classified_as a.reply ≡ some (status, result)
      → w1.db ≡ with_row
      → w1.sent ≡ with_request c
      → Effect (settle settings a event_id endpoint_id n c.event new_row c.cb status result w1).1
  unfolding settle
  settle-Effect c status result w1 e d s =
      let (d', s') =
        settle_outcome-tables settings a result.outcome event_id endpoint_id n c.event
          (answered a status new_row) c.cb result
          (emit (Metric.delivery_latency c.event.event_type a.latency_ms) w1) in
      settled c status result e
        (d'
          ∙ ap
              (settled_tables settings a result.outcome event_id endpoint_id n
                (answered a status new_row) c.cb result)
              d)
        (s' ∙ s)

  post-Effect :
      (reply : HttpReply) (c : Cleared) (w1 : World)
      → a.reply ≡ reply
      → w1.db ≡ with_row
      → w1.sent ≡ with_request c
      → Effect (post settings codecs reply a event_id endpoint_id n c.event new_row c.cb w1).1
  unfolding post
  post-Effect (HttpReply.response k) c w1 e d s = settle-Effect c _ _ w1 (ap classified_as e) d s
  post-Effect HttpReply.timeout_exception c w1 e d s =
      settle-Effect c _ _ w1 (ap classified_as e) d s
  post-Effect HttpReply.transport_error c w1 e d s = settle-Effect c _ _ w1 (ap classified_as e) d s
  post-Effect HttpReply.other_exception c w1 e d s = aborted c d s

  send-Effect :
      (secret : Option (List ℕ)) (event : Event) (endpoint : Endpoint) (cb : CircuitBreaker)
      (w1 : World)
      → get_event event_id w.db ≡ some event
      → get_endpoint endpoint_id w.db ≡ some endpoint
      → allow_request a.asked_at (load_circuit_breaker settings endpoint) ≡ (true, cb)
      → validate_webhook_url a.network endpoint.url settings.max_endpoint_url_length ≡ ok tt
      → codecs.decrypt_secret endpoint.secret_encrypted ≡ secret
      → w1.db ≡ with_row
      → w1.sent ≡ w.sent
      → Effect (send settings codecs secret a event_id endpoint_id n event endpoint new_row cb w1).1
  unfolding send
  send-Effect none event endpoint cb w1 fe f al ac de d s = undecrypted d s
  send-Effect (some secret) event endpoint cb w1 fe f al ac de d s =
      let c : Cleared = record {
        event = event;
        endpoint = endpoint;
        cb = cb;
        secret = secret;
        found_event = fe;
        found = f;
        allowed = al;
        accepted = ac;
        decrypted = de;
      } in
      post-Effect a.reply c _ refl d (
        ap (λ q. q ++ request_of settings codecs a event_id n event endpoint new_row secret ∷ []) s)

  check_and_send-Effect :
      (checked : Result SsrfError (Unit {0})) (event : Event) (endpoint : Endpoint)
      (cb : CircuitBreaker) (w1 : World)
      → get_event event_id w.db ≡ some event
      → get_endpoint endpoint_id w.db ≡ some endpoint
      → allow_request a.asked_at (load_circuit_breaker settings endpoint) ≡ (true, cb)
      → validate_webhook_url a.network endpoint.url settings.max_endpoint_url_length ≡ checked
      → w1.db ≡ with_row
      → w1.sent ≡ w.sent
      → Effect
          (check_and_send settings codecs checked a event_id endpoint_id n event endpoint new_row cb
            w1).1
  unfolding check_and_send
  check_and_send-Effect (err e) event endpoint cb w1 fe f al ch d s =
      refused endpoint e f ch (ap (set_delivery a.new_id (λ _. refused_row e a new_row)) d) s
  check_and_send-Effect (ok u) event endpoint cb w1 fe f al ch d s =
      send-Effect _ event endpoint cb w1 fe f al ch refl d s

  attempt_delivery-Effect :
      (answer : Bool × CircuitBreaker) (event : Event) (endpoint : Endpoint)
      → get_event event_id w.db ≡ some event
      → get_endpoint endpoint_id w.db ≡ some endpoint
      → allow_request a.asked_at (load_circuit_breaker settings endpoint) ≡ answer
      → Effect (attempt_delivery settings codecs answer a event_id endpoint_id n event endpoint w).1
  unfolding attempt_delivery
  attempt_delivery-Effect (false, cb) event endpoint fe f al = held endpoint cb f al refl refl
  attempt_delivery-Effect (true, cb) event endpoint fe f al =
      check_and_send-Effect _ event endpoint cb _ fe f al refl refl refl

  deliver_loaded-Effect :
      (event : Option Event) (endpoint : Option Endpoint)
      → get_event event_id w.db ≡ event
      → get_endpoint endpoint_id w.db ≡ endpoint
      → Effect (deliver_loaded settings codecs event endpoint a event_id endpoint_id n w).1
  unfolding deliver_loaded
  deliver_loaded-Effect (some event) (some endpoint) fe f =
      attempt_delivery-Effect _ event endpoint fe f refl
  deliver_loaded-Effect (some event) none fe f = missing (inr f) refl refl
  deliver_loaded-Effect none endpoint fe f = missing (inl fe) refl refl

  -- Every call does one of these.
  pub deliver_to_endpoint-Effect :
      Effect (deliver_to_endpoint settings codecs a event_id endpoint_id n w).1
  unfolding deliver_to_endpoint
  deliver_to_endpoint-Effect = deliver_loaded-Effect _ _ refl refl
