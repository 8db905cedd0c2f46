-- ===== src/Worker/DeliveryEngine/Circuit.antt =====
-- The circuit breakers of the endpoints, as the engine loads and saves them.
use eventmesh.Base.{
  ℕ, ◌≤◌, ◌≡◌, refl, sym, ap, ◌∙◌, subst, Bool, true, false, some, List, arith, All, All-update,
  All-Has, Has-find, ◌==◌,
}
use eventmesh.Common.Enums.{closed, opened}
use eventmesh.Common.CircuitBreaker.{CircuitBreaker, allow_request, record_success, record_failure}
use eventmesh.Common.Classify.{Outcome, ClassificationResult}
use eventmesh.Database.{Delivery, Endpoint, Tables, Payload, get_endpoint}
use eventmesh.Worker.DeliveryEngine.{
  Settings, Codecs, Attempt, World, load_circuit_breaker, save_circuit_breaker, schedule_retry,
  maybe_complete_event,
}
use eventmesh.Worker.DeliveryEngine.Deliver.{deliver_to_endpoint, process_outbox_payload}
use eventmesh.Worker.DeliveryEngine.Outcomes.{settled_tables}
use eventmesh.Worker.DeliveryEngine.Effects.{Effect, Cleared, deliver_to_endpoint-Effect}
use eventmesh.Worker.DeliveryEngine.Fanout.{process_outbox_payload-keeps}

abbrev pub AllClosed : List Endpoint → Type 0
AllClosed = All (λ (e : Endpoint). e.circuit_state ≡ closed)

pub maybe_complete_event-endpoints :
    (event_id : ℕ) (db : Tables) → (maybe_complete_event event_id db).endpoints ≡ db.endpoints
unfolding maybe_complete_event
maybe_complete_event-endpoints event_id db = ground arith

-- A breaker that was loaded from CLOSED is let through, and is CLOSED after one success, and after
-- one failure if the threshold is two or more: the count begins at 0 with each load.
loaded_closed :
    (settings : Settings) (now later : ℕ) (e : Endpoint) (cb : CircuitBreaker) (answer : Bool)
    → 2 ≤ settings.circuit_failure_threshold
    → e.circuit_state ≡ closed
    → allow_request now (load_circuit_breaker settings e) ≡ (answer, cb)
    → (answer ≡ true)
      × ((record_success cb).state.state ≡ closed)
      × ((record_failure later cb).state.state ≡ closed)
unfolding load_circuit_breaker allow_request record_success record_failure
loaded_closed settings now later e cb answer t c al = ground arith

saved-AllClosed :
    (endpoint_id : ℕ) (cb : CircuitBreaker) (db : Tables)
    → cb.state.state ≡ closed
    → AllClosed db.endpoints
    → AllClosed (save_circuit_breaker endpoint_id cb db).endpoints
unfolding save_circuit_breaker
saved-AllClosed endpoint_id cb db c h =
    All-update (λ (e : Endpoint). e.circuit_state ≡ closed) (λ e. e.id == endpoint_id)
      (λ e. record e { circuit_state = cb.state.state }) db.endpoints (λ e _ _. c) h

settled-AllClosed :
    (settings : Settings) (o : Outcome) (a : Attempt) (event_id endpoint_id n : ℕ) (d : Delivery)
    (cb : CircuitBreaker) (result : ClassificationResult) (db : Tables)
    → (record_success cb).state.state ≡ closed
    → (record_failure a.failed_at cb).state.state ≡ closed
    → AllClosed db.endpoints
    → AllClosed (settled_tables settings a o event_id endpoint_id n d cb result db).endpoints
settled-AllClosed settings Outcome.success a event_id endpoint_id n d cb result db won lost h =
    saved-AllClosed endpoint_id (record_success cb) _ won
      (subst AllClosed (sym (maybe_complete_event-endpoints event_id _)) h)
settled-AllClosed settings Outcome.retry a event_id endpoint_id n d cb result db won lost h =
    saved-AllClosed endpoint_id (record_failure a.failed_at cb) _ lost h
settled-AllClosed settings Outcome.permanent_failure a event_id endpoint_id n d cb result db won
      lost h =
    saved-AllClosed endpoint_id (record_failure a.failed_at cb) _ lost h

Effect-AllClosed :
    (settings : Settings) (codecs : Codecs) (a : Attempt) (event_id endpoint_id n : ℕ)
    (w w' : World)
    → 2 ≤ settings.circuit_failure_threshold
    → AllClosed w.db.endpoints
    → Effect settings codecs a event_id endpoint_id n w w'
    → AllClosed w'.db.endpoints
unfolding schedule_retry
Effect-AllClosed settings codecs a event_id endpoint_id n w w' two h (Effect.missing m d s) =
    subst (λ (t : Tables). AllClosed t.endpoints) (sym d) h
Effect-AllClosed settings codecs a event_id endpoint_id n w w' two h (Effect.held ep cb f al d s) =
    subst (λ (t : Tables). AllClosed t.endpoints) (sym d) h
Effect-AllClosed settings codecs a event_id endpoint_id n w w' two h (Effect.refused ep e f v d s) =
    subst (λ (t : Tables). AllClosed t.endpoints) (sym d) h
Effect-AllClosed settings codecs a event_id endpoint_id n w w' two h (Effect.undecrypted d s) =
    subst (λ (t : Tables). AllClosed t.endpoints) (sym d) h
Effect-AllClosed settings codecs a event_id endpoint_id n w w' two h (Effect.aborted c d s) =
    subst (λ (t : Tables). AllClosed t.endpoints) (sym d) h
Effect-AllClosed settings codecs a event_id endpoint_id n w w' two h
      (Effect.settled c status result e d s) =
    let is_closed =
      All-Has (λ (e : Endpoint). e.circuit_state ≡ closed) w.db.endpoints h
        (Has-find _ w.db.endpoints c.found).0 in
    let (_, won, lost) =
      loaded_closed settings a.asked_at a.failed_at c.endpoint c.cb true two is_closed c.allowed in
    subst (λ (t : Tables). AllClosed t.endpoints) (sym d)
      (settled-AllClosed settings result.outcome a event_id endpoint_id n _ c.cb result _ won lost
        h)

-- With a failure threshold of two or more, if every endpoint's stored circuit state is CLOSED,
-- then every one still is after the worker processes a payload, whatever the answers to its
-- requests.
pub process_outbox_payload-AllClosed :
    (settings : Settings) (codecs : Codecs) (attempts : ℕ → Attempt) (payload : Payload) (w : World)
    → 2 ≤ settings.circuit_failure_threshold
    → AllClosed w.db.endpoints
    → AllClosed (process_outbox_payload settings codecs attempts payload w).1.db.endpoints
process_outbox_payload-AllClosed settings codecs attempts payload w two h =
    process_outbox_payload-keeps settings codecs attempts (λ w. AllClosed w.db.endpoints)
      payload.event_id
      (λ i endpoint_id w h.
        Effect-AllClosed settings codecs (attempts i) payload.event_id endpoint_id 1 w _ two h (
          deliver_to_endpoint-Effect settings codecs (attempts i) payload.event_id endpoint_id 1 w))
      payload w refl h h

-- A loaded breaker that is OPEN refuses, whatever the time.
loaded_opened :
    (settings : Settings) (now : ℕ) (e : Endpoint)
    → e.circuit_state ≡ opened
    → (allow_request now (load_circuit_breaker settings e)).0 ≡ false
unfolding load_circuit_breaker allow_request
loaded_opened settings now e o = ground arith

-- A delivery to an endpoint whose stored circuit state is OPEN sends nothing and leaves every
-- endpoint as it is, at whatever time it is tried.
pub deliver_to_endpoint_opened :
    (settings : Settings) (codecs : Codecs) (a : Attempt) (event_id endpoint_id n : ℕ) (w : World)
    (e : Endpoint)
    → get_endpoint endpoint_id w.db ≡ some e
    → e.circuit_state ≡ opened
    → let w' = (deliver_to_endpoint settings codecs a event_id endpoint_id n w).1 in
      (w'.sent ≡ w.sent) × (w'.db.endpoints ≡ w.db.endpoints)
unfolding schedule_retry
deliver_to_endpoint_opened settings codecs a event_id endpoint_id n w e f o =
    opened_case (deliver_to_endpoint-Effect settings codecs a event_id endpoint_id n w)
  where
    unsent : Cleared settings codecs a event_id endpoint_id n w → ⊥
    unsent c =
        let same : some e ≡ some c.endpoint = sym f ∙ c.found in
        let refused = loaded_opened settings a.asked_at c.endpoint (cc (same, o)) in
        cc (ap (λ (p : Bool × CircuitBreaker). p.0) c.allowed, refused)

    opened_case :
        {w' : World}
        → Effect settings codecs a event_id endpoint_id n w w'
        → (w'.sent ≡ w.sent) × (w'.db.endpoints ≡ w.db.endpoints)
    opened_case (Effect.missing m d s) = (s, ap (λ (t : Tables). t.endpoints) d)
    opened_case (Effect.held ep cb g al d s) = (s, ap (λ (t : Tables). t.endpoints) d)
    opened_case (Effect.refused ep x g v d s) = (s, ap (λ (t : Tables). t.endpoints) d)
    opened_case (Effect.undecrypted d s) = (s, ap (λ (t : Tables). t.endpoints) d)
    opened_case (Effect.aborted c d s) = absurd (unsent c)
    opened_case (Effect.settled c status result x d s) = absurd (unsent c)
