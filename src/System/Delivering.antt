-- ===== src/System/Delivering.antt =====
-- The worker keeps a state consistent: it writes deliveries, circuits and the status of events.
use eventmesh.Base.{
  ℕ, ◌≡◌, refl, true, inl, inr, List, ◌==◌, Bool-cases, any, all, select, ◌&&◌, All, Has,
  All-update,
}
use eventmesh.Common.Enums.{EventStatus}
use eventmesh.Common.CircuitBreaker.{CircuitBreaker}
use eventmesh.Common.Classify.{Outcome, ClassificationResult}
use eventmesh.Database.{set_event, Delivery, Payload, Tables}
use eventmesh.Messaging.Broker.{Message}
use eventmesh.Worker.DeliveryEngine.{
  Settings, Codecs, Attempt, World, save_circuit_breaker, schedule_retry, maybe_complete_event,
  is_terminal,
}
use eventmesh.Worker.DeliveryEngine.Deliver.{deliver_to_endpoint, process_outbox_payload}
use eventmesh.Worker.DeliveryEngine.Outcomes.{settled_tables}
use eventmesh.Worker.DeliveryEngine.Effects.{Effect, deliver_to_endpoint-Effect}
use eventmesh.Worker.DeliveryEngine.Fanout.{process_outbox_payload-keeps}
use eventmesh.System.{Accepted, of_event}
use eventmesh.System.Consistent.{Consistent, Consistent-same_outbox}

-- The outbox and the keys are those of `db`, and every event is an accepted one.
pub record Sound (accepted : List Accepted) (db db' : Tables) : Type 0 where
  pub outbox : db'.outbox ≡ db.outbox
  pub keys : db'.idempotency_keys ≡ db.idempotency_keys
  pub events : All (λ e. Has (of_event e) accepted) db'.events

module _ (accepted : List Accepted) (db : Tables) where
  maybe_complete_event-Sound :
      (event_id : ℕ) (t : Tables)
      → Sound accepted db t
      → Sound accepted db (maybe_complete_event event_id t)
  unfolding maybe_complete_event
  maybe_complete_event-Sound event_id t h =
      let rows = select (λ (d : Delivery). d.event_id == event_id) t.deliveries in
      elim (Bool-cases (any (λ _. true) rows && all (λ d. is_terminal d.status) rows)) [
        | inl done ↦ rw done (record {
          outbox = h.outbox;
          keys = h.keys;
          events =
              All-update (λ e. Has (of_event e) accepted) (λ e. e.id == event_id)
                (λ e. record e { status = EventStatus.completed }) t.events (λ e _ m. m) h.events;
        })
        | inr open_rows ↦ rw open_rows h
      ]

  settled-Sound :
      (settings : Settings) (o : Outcome) (a : Attempt) (event_id endpoint_id n : ℕ) (d : Delivery)
      (cb : CircuitBreaker) (result : ClassificationResult) (t : Tables)
      → Sound accepted db t
      → Sound accepted db (settled_tables settings a o event_id endpoint_id n d cb result t)
  unfolding save_circuit_breaker
  settled-Sound settings Outcome.success a event_id endpoint_id n d cb result t h =
      let s =
        maybe_complete_event-Sound event_id _
          (record { outbox = h.outbox; keys = h.keys; events = h.events }) in
      record { outbox = s.outbox; keys = s.keys; events = s.events }
  settled-Sound settings Outcome.retry a event_id endpoint_id n d cb result t h = record {
    outbox = h.outbox;
    keys = h.keys;
    events = h.events;
  }
  settled-Sound settings Outcome.permanent_failure a event_id endpoint_id n d cb result t h =
      record { outbox = h.outbox; keys = h.keys; events = h.events }

  Effect-Sound :
      (settings : Settings) (codecs : Codecs) (a : Attempt) (event_id endpoint_id n : ℕ)
      (w w' : World)
      → Sound accepted db w.db
      → Effect settings codecs a event_id endpoint_id n w w'
      → Sound accepted db w'.db
  unfolding schedule_retry
  Effect-Sound settings codecs a event_id endpoint_id n w w' h (Effect.missing m d s) = rw d h
  Effect-Sound settings codecs a event_id endpoint_id n w w' h (Effect.held ep cb f al d s) =
      rw d (record { outbox = h.outbox; keys = h.keys; events = h.events })
  Effect-Sound settings codecs a event_id endpoint_id n w w' h (Effect.refused ep e f v d s) =
      rw d (record { outbox = h.outbox; keys = h.keys; events = h.events })
  Effect-Sound settings codecs a event_id endpoint_id n w w' h (Effect.undecrypted d s) =
      rw d (record { outbox = h.outbox; keys = h.keys; events = h.events })
  Effect-Sound settings codecs a event_id endpoint_id n w w' h (Effect.aborted c d s) =
      rw d (record { outbox = h.outbox; keys = h.keys; events = h.events })
  Effect-Sound settings codecs a event_id endpoint_id n w w' h
        (Effect.settled c status result e d s) =
      rw d (
        settled-Sound settings result.outcome a event_id endpoint_id n _ c.cb result _
          (record { outbox = h.outbox; keys = h.keys; events = h.events }))

  pub process_outbox_payload-Consistent :
      (settings : Settings) (codecs : Codecs) (attempts : ℕ → Attempt) (payload : Payload)
      (w : World) (sent : List Message)
      → w.db ≡ db
      → Consistent accepted sent db
      → Consistent accepted sent (process_outbox_payload settings codecs attempts payload w).1.db
  process_outbox_payload-Consistent settings codecs attempts payload w sent at c =
      let first : Sound accepted db w.db =
        rw at (record { outbox = refl; keys = refl; events = c.events }) in
      let s =
        process_outbox_payload-keeps settings codecs attempts (λ w. Sound accepted db w.db)
          payload.event_id
          (λ i endpoint_id w h.
            Effect-Sound settings codecs (attempts i) payload.event_id endpoint_id 1 w _ h (
              deliver_to_endpoint-Effect settings codecs (attempts i) payload.event_id endpoint_id 1
                w))
          payload w refl first
          (record {
            outbox = first.outbox;
            keys = first.keys;
            events =
                All-update (λ e. Has (of_event e) accepted) (λ e. e.id == payload.event_id)
                  (λ e. record e { status = EventStatus.processing }) w.db.events (λ e t m. m)
                  first.events;
          }) in
      Consistent-same_outbox accepted sent db _ s.outbox s.keys s.events c

  pub deliver_to_endpoint-Consistent :
      (settings : Settings) (codecs : Codecs) (a : Attempt) (event_id endpoint_id n : ℕ) (w : World)
      (sent : List Message)
      → w.db ≡ db
      → Consistent accepted sent db
      → Consistent accepted sent
          (deliver_to_endpoint settings codecs a event_id endpoint_id n w).1.db
  deliver_to_endpoint-Consistent settings codecs a event_id endpoint_id n w sent at c =
      let first : Sound accepted db w.db =
        rw at (record { outbox = refl; keys = refl; events = c.events }) in
      let s =
        Effect-Sound settings codecs a event_id endpoint_id n w _ first
          (deliver_to_endpoint-Effect settings codecs a event_id endpoint_id n w) in
      Consistent-same_outbox accepted sent db _ s.outbox s.keys s.events c

  pub begin-Consistent :
      (event_id : ℕ) (sent : List Message)
      → Consistent accepted sent db
      → Consistent accepted sent
          (set_event event_id (λ e. record e { status = EventStatus.processing }) db)
  begin-Consistent event_id sent c =
      Consistent-same_outbox accepted sent db _ refl refl
        (All-update (λ e. Has (of_event e) accepted) (λ e. e.id == event_id)
          (λ e. record e { status = EventStatus.processing }) db.events (λ e t m. m) c.events)
        c
