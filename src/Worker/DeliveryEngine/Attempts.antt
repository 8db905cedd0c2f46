-- ===== src/Worker/DeliveryEngine/Attempts.antt =====
-- The rows of `deliveries`: what a delivery may leave in them, and the attempt number.
use eventmesh.Base.{
  ℕ, ◌≡◌, ◌≢◌, refl, sym, subst, Option, none, some, [], ◌∷◌, arith, All, All-update, All-append,
  ◌==◌, err,
}
use eventmesh.Common.Enums.{DeliveryStatus}
use eventmesh.Common.CircuitBreaker.{CircuitBreaker}
use eventmesh.Common.Classify.{Outcome, ClassificationResult}
use eventmesh.Common.Ssrf.{SsrfError, validate_webhook_url}
use eventmesh.Database.{Endpoint, Delivery, Tables, Payload, set_delivery, get_endpoint}
use eventmesh.Worker.DeliveryEngine.{
  Settings, Codecs, Attempt, World, started_delivery, scheduled_delivery, add_delivery,
  save_circuit_breaker, schedule_retry, maybe_complete_event,
}
use eventmesh.Worker.DeliveryEngine.Settle.{failed_row, answered}
use eventmesh.Worker.DeliveryEngine.Deliver.{process_outbox_payload, refused_row}
use eventmesh.Worker.DeliveryEngine.Outcomes.{classified_as, failure_row, settled_tables}
use eventmesh.Worker.DeliveryEngine.Effects.{Effect, deliver_to_endpoint-Effect}
use eventmesh.Worker.DeliveryEngine.Fanout.{process_outbox_payload-keeps}

maybe_complete_event-deliveries :
    (event_id : ℕ) (db : Tables) → (maybe_complete_event event_id db).deliveries ≡ db.deliveries
unfolding maybe_complete_event
maybe_complete_event-deliveries event_id db = ground arith

-- A property that the new rows of an attempt have, in each of the forms they may be left in.
module _ (settings : Settings) (a : Attempt) (event_id endpoint_id n : ℕ)
    (Q : Delivery → Type 0) where
  added :
      (d : Delivery) (db : Tables)
      → Q d
      → All Q db.deliveries
      → All Q (add_delivery d db).deliveries
  added d db q h = All-append Q db.deliveries (d ∷ []) h (q, tt)

  replaced :
      (i : ℕ) (d : Delivery) (db : Tables)
      → Q d
      → All Q db.deliveries
      → All Q (set_delivery i (λ _. d) db).deliveries
  replaced i d db q h = All-update Q (λ e. e.id == i) (λ _. d) db.deliveries (λ _ _ _. q) h

  settled-deliveries :
      (o : Outcome) (d : Delivery) (cb : CircuitBreaker) (result : ClassificationResult)
      (db : Tables)
      → (o ≡ Outcome.success → Q (record d { status = DeliveryStatus.delivered }))
      → (o ≢ Outcome.success → Q (failure_row settings a n result d))
      → All Q db.deliveries
      → All Q (settled_tables settings a o event_id endpoint_id n d cb result db).deliveries
  unfolding save_circuit_breaker
  settled-deliveries Outcome.success d cb result db won lost h =
      subst (All Q) (sym (maybe_complete_event-deliveries event_id _))
        (replaced d.id _ db (won refl) h)
  settled-deliveries Outcome.retry d cb result db won lost h =
      replaced d.id _ db (lost (λ e. cc e)) h
  settled-deliveries Outcome.permanent_failure d cb result db won lost h =
      replaced d.id _ db (lost (λ e. cc e)) h

  -- the answered row
  abbrev pub answered_row : Option ℕ → Delivery
  answered_row status = answered a status (started_delivery event_id endpoint_id n a)

  pub Effect-deliveries :
      (codecs : Codecs) (w w' : World)
      → Q (scheduled_delivery event_id endpoint_id n settings.circuit_open_duration a)
      → Q (started_delivery event_id endpoint_id n a)
      → ((e : SsrfError) (ep : Endpoint)
          → get_endpoint endpoint_id w.db ≡ some ep
          → validate_webhook_url a.network ep.url settings.max_endpoint_url_length ≡ err e
          → Q (refused_row e a (started_delivery event_id endpoint_id n a)))
      → ((status : Option ℕ) (result : ClassificationResult)
          → classified_as a.reply ≡ some (status, result)
          → (result.outcome ≡ Outcome.success
              → Q (record (answered_row status) { status = DeliveryStatus.delivered }))
            × (result.outcome ≢ Outcome.success
                → Q (failure_row settings a n result (answered_row status))))
      → All Q w.db.deliveries
      → Effect settings codecs a event_id endpoint_id n w w'
      → All Q w'.db.deliveries
  unfolding schedule_retry
  Effect-deliveries codecs w w' qs qn qr qa h (Effect.missing m d s) =
      subst (λ (t : Tables). All Q t.deliveries) (sym d) h
  Effect-deliveries codecs w w' qs qn qr qa h (Effect.held ep cb f al d s) =
      subst (λ (t : Tables). All Q t.deliveries) (sym d) (added _ w.db qs h)
  Effect-deliveries codecs w w' qs qn qr qa h (Effect.refused ep e f v d s) =
      subst (λ (t : Tables). All Q t.deliveries) (sym d)
        (replaced a.new_id _ (add_delivery _ w.db) (qr e ep f v) (added _ w.db qn h))
  Effect-deliveries codecs w w' qs qn qr qa h (Effect.undecrypted d s) =
      subst (λ (t : Tables). All Q t.deliveries) (sym d) (added _ w.db qn h)
  Effect-deliveries codecs w w' qs qn qr qa h (Effect.aborted c d s) =
      subst (λ (t : Tables). All Q t.deliveries) (sym d) (added _ w.db qn h)
  Effect-deliveries codecs w w' qs qn qr qa h (Effect.settled c status result e d s) =
      subst (λ (t : Tables). All Q t.deliveries) (sym d)
        (settled-deliveries result.outcome (answered_row status) c.cb result (add_delivery _ w.db)
          (qa status result e).0 (qa status result e).1 (added _ w.db qn h))

failed_row-attempt_number :
    (o : Outcome) (delay : Option ℕ) (a : Attempt) (d : Delivery)
    → (failed_row o delay a d).attempt_number ≡ d.attempt_number
unfolding failed_row
failed_row-attempt_number Outcome.success delay a d = refl
failed_row-attempt_number Outcome.permanent_failure delay a d = refl
failed_row-attempt_number Outcome.retry none a d = refl
failed_row-attempt_number Outcome.retry (some x) a d = refl

-- Whatever attempt number a payload asks for, if every row of `deliveries` has attempt number 1,
-- then every row still has it after the worker processes the payload.
pub process_outbox_payload-attempt_number :
    (settings : Settings) (codecs : Codecs) (attempts : ℕ → Attempt) (payload : Payload) (w : World)
    → All (λ (d : Delivery). d.attempt_number ≡ 1) w.db.deliveries
    → All
        (λ (d : Delivery). d.attempt_number ≡ 1)
        (process_outbox_payload settings codecs attempts payload w).1.db.deliveries
process_outbox_payload-attempt_number settings codecs attempts payload w h =
    process_outbox_payload-keeps settings codecs attempts
      (λ w. All (λ (d : Delivery). d.attempt_number ≡ 1) w.db.deliveries) payload.event_id
      (λ i endpoint_id w h.
        Effect-deliveries settings (attempts i) payload.event_id endpoint_id 1
          (λ d. d.attempt_number ≡ 1) codecs w _ refl refl (λ e ep f v. refl)
          (λ status result e. ((λ _. refl), (λ _. failed_row-attempt_number result.outcome _ _ _)))
          h
          (deliver_to_endpoint-Effect settings codecs (attempts i) payload.event_id endpoint_id 1
            w))
      payload w refl h h
