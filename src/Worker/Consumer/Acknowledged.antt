-- ===== src/Worker/Consumer/Acknowledged.antt =====
-- What an acknowledged message has gone through.
use eventmesh.Base.{
  ℕ, suc, ◌≡◌, refl, inl, inr, ◌⊎◌, Bool, true, false, Option, none, some, List, [], ◌∷◌, map,
  Result, ok, err, Has,
}
use eventmesh.Common.Ssrf.{validate_webhook_url}
use eventmesh.Database.{Event, get_event, Endpoint, get_endpoint, Delivery}
use eventmesh.Common.CircuitBreaker.{CircuitBreaker, allow_request}
use eventmesh.Common.Ssrf.{SsrfError}
use eventmesh.Messaging.RedisStreams.{StreamMessage, StreamsClient}
use eventmesh.Worker.Consumer.{finish, handle_message}
use eventmesh.Worker.DeliveryEngine.{
  Settings, Codecs, Attempt, HttpReply, World, DeliveryOutcomeSummary, EngineError,
  load_circuit_breaker,
}
use eventmesh.Worker.DeliveryEngine.Resolve.{resolve_endpoints}
use eventmesh.Worker.DeliveryEngine.Settle.{settle}
use eventmesh.Worker.DeliveryEngine.Deliver.{
  append_summary, post, send, check_and_send, attempt_delivery, deliver_loaded, deliver_to_endpoint,
  deliver_all, fan_out, process_loaded, process_outbox_payload,
}

-- A summary is of the endpoint, unless an exception was raised.
abbrev Concerns : ℕ → Result EngineError DeliveryOutcomeSummary → Type 0
Concerns endpoint_id (err e) = Unit
Concerns endpoint_id (ok s) = s.endpoint_id ≡ endpoint_id

module _ (settings : Settings) (codecs : Codecs) where
  post-Concerns :
      (reply : HttpReply) (a : Attempt) (event_id endpoint_id n : ℕ) (event : Event) (d : Delivery)
      (cb : CircuitBreaker) (w : World)
      → Concerns endpoint_id (post settings codecs reply a event_id endpoint_id n event d cb w).0
  unfolding post settle
  post-Concerns (HttpReply.response k) a event_id endpoint_id n event d cb w = refl
  post-Concerns HttpReply.timeout_exception a event_id endpoint_id n event d cb w = refl
  post-Concerns HttpReply.transport_error a event_id endpoint_id n event d cb w = refl
  post-Concerns HttpReply.other_exception a event_id endpoint_id n event d cb w = tt

  send-Concerns :
      (secret : Option (List ℕ)) (a : Attempt) (event_id endpoint_id n : ℕ) (event : Event)
      (ep : Endpoint) (d : Delivery) (cb : CircuitBreaker) (w : World)
      → Concerns endpoint_id
          (send settings codecs secret a event_id endpoint_id n event ep d cb w).0
  unfolding send
  send-Concerns none a event_id endpoint_id n event ep d cb w = tt
  send-Concerns (some secret) a event_id endpoint_id n event ep d cb w =
      post-Concerns a.reply a event_id endpoint_id n event d cb _

  check_and_send-Concerns :
      (checked : Result SsrfError (Unit {0})) (a : Attempt) (event_id endpoint_id n : ℕ)
      (event : Event) (ep : Endpoint) (d : Delivery) (cb : CircuitBreaker) (w : World)
      → Concerns endpoint_id
          (check_and_send settings codecs checked a event_id endpoint_id n event ep d cb w).0
  unfolding check_and_send
  check_and_send-Concerns (err e) a event_id endpoint_id n event ep d cb w = refl
  check_and_send-Concerns (ok u) a event_id endpoint_id n event ep d cb w =
      send-Concerns (codecs.decrypt_secret ep.secret_encrypted) a event_id endpoint_id n event ep d
        cb w

  attempt_delivery-Concerns :
      (answer : Bool × CircuitBreaker) (a : Attempt) (event_id endpoint_id n : ℕ) (event : Event)
      (ep : Endpoint) (w : World)
      → Concerns endpoint_id
          (attempt_delivery settings codecs answer a event_id endpoint_id n event ep w).0
  unfolding attempt_delivery
  attempt_delivery-Concerns (false, cb) a event_id endpoint_id n event ep w = refl
  attempt_delivery-Concerns (true, cb) a event_id endpoint_id n event ep w =
      check_and_send-Concerns
        (validate_webhook_url a.network ep.url settings.max_endpoint_url_length) a event_id
        endpoint_id n event ep _ cb _

  deliver_loaded-Concerns :
      (event : Option Event) (ep : Option Endpoint) (a : Attempt) (event_id endpoint_id n : ℕ)
      (w : World)
      → Concerns endpoint_id (deliver_loaded settings codecs event ep a event_id endpoint_id n w).0
  unfolding deliver_loaded
  deliver_loaded-Concerns (some event) (some ep) a event_id endpoint_id n w =
      attempt_delivery-Concerns (allow_request a.asked_at (load_circuit_breaker settings ep)) a
        event_id endpoint_id n event ep w
  deliver_loaded-Concerns (some event) none a event_id endpoint_id n w = refl
  deliver_loaded-Concerns none ep a event_id endpoint_id n w = refl

  -- The summaries are those of the endpoints, one for each, in order.
  abbrev Covers : List ℕ → Result EngineError (List DeliveryOutcomeSummary) → Type 0
  Covers ids (err e) = Unit
  Covers ids (ok ss) = map (λ (s : DeliveryOutcomeSummary). s.endpoint_id) ss ≡ ids

  append_summary-Covers :
      (id : ℕ) (ids : List ℕ) (r : Result EngineError DeliveryOutcomeSummary) (w1 : World)
      (rest : Result EngineError (List DeliveryOutcomeSummary) × World)
      → Concerns id r
      → Covers ids rest.0
      → Covers (id ∷ ids) (append_summary r w1 rest).0
  append_summary-Covers id ids (err e) w1 rest c h = tt
  append_summary-Covers id ids (ok s) w1 (err e, w2) c h = tt
  append_summary-Covers id ids (ok s) w1 (ok ss, w2) c h = cc (c, h)

  deliver_all-Covers :
      (attempts : ℕ → Attempt) (i event_id : ℕ) (ids : List ℕ) (w : World)
      → Covers ids (deliver_all settings codecs attempts i event_id ids w).0
  unfolding deliver_all deliver_to_endpoint
  deliver_all-Covers attempts i event_id [] w = refl
  deliver_all-Covers attempts i event_id (id ∷ ids) w =
      let (r, w1) = deliver_to_endpoint settings codecs (attempts i) event_id id 1 w in
      append_summary-Covers id ids r w1
        (deliver_all settings codecs attempts (suc i) event_id ids w1)
        (deliver_loaded-Concerns (get_event event_id w.db) (get_endpoint id w.db) (attempts i)
          event_id id 1 w)
        (deliver_all-Covers attempts (suc i) event_id ids w1)

  fan_out-Covers :
      (ids : List ℕ) (attempts : ℕ → Attempt) (event_id : ℕ) (w : World)
      → Covers ids (fan_out settings codecs ids attempts event_id w).0
  unfolding fan_out
  fan_out-Covers [] attempts event_id w = refl
  fan_out-Covers (id ∷ ids) attempts event_id w =
      deliver_all-Covers attempts 0 event_id (id ∷ ids) _

-- If handling a pending message takes it off the pending entries, then its event was missing, or
-- the processing of its payload ended without an exception, with one outcome for each endpoint
-- that the payload resolves to, in order.
pub handle_message_acknowledged :
    (c : StreamsClient) (settings : Settings) (codecs : Codecs) (attempts : ℕ → Attempt)
    (msg : StreamMessage) (s : c.State) (w : World)
    → Has msg.message_id (c.pending s)
    → (Has msg.message_id (c.pending (handle_message c settings codecs attempts msg (s, w)).0) → ⊥)
    → (get_event msg.fields.payload.event_id w.db ≡ none)
      ⊎ ((ss : List DeliveryOutcomeSummary) × ((process_outbox_payload settings codecs attempts
              msg.fields.payload w).0
            ≡ ok ss)
          × (map (λ (s : DeliveryOutcomeSummary). s.endpoint_id) ss
              ≡ resolve_endpoints msg.fields.payload.tenant_id msg.fields.payload.event_type
                  msg.fields.payload.target_endpoint_id w.db))
unfolding handle_message process_outbox_payload process_loaded
handle_message_acknowledged c settings codecs attempts msg s w m gone =
    by_event (get_event msg.fields.payload.event_id w.db) refl gone
  where
    ids : List ℕ
    ids =
        resolve_endpoints msg.fields.payload.tenant_id msg.fields.payload.event_type
          msg.fields.payload.target_endpoint_id w.db

    by_result :
        (r : Result EngineError (List DeliveryOutcomeSummary))
        → Covers settings codecs ids r
        → (Has msg.message_id (c.pending (finish c r msg.message_id s)) → ⊥)
        → (ss : List DeliveryOutcomeSummary) × (r ≡ ok ss)
          × (map (λ (s : DeliveryOutcomeSummary). s.endpoint_id) ss ≡ ids)
    by_result (err e) c g = absurd (g m)
    by_result (ok ss) c g = (ss, refl, c)

    by_event :
        (event : Option Event)
        → get_event msg.fields.payload.event_id w.db ≡ event
        → (Has msg.message_id (
              c.pending (
                finish c
                  (process_loaded settings codecs event attempts msg.fields.payload w).0
                  msg.message_id
                  s))
            → ⊥)
        → (event ≡ none)
          ⊎ ((ss : List DeliveryOutcomeSummary) × ((process_loaded settings codecs event attempts
                  msg.fields.payload w).0
                ≡ ok ss)
              × (map (λ (s : DeliveryOutcomeSummary). s.endpoint_id) ss ≡ ids))
    by_event none e g = inl refl
    by_event (some event) e g =
        inr (
          by_result _ (fan_out-Covers settings codecs ids attempts msg.fields.payload.event_id w) g)
