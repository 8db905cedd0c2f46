-- ===== src/Worker/DeliveryEngine/Retries.antt =====
-- The retries that the engine schedules.
use eventmesh.Base.{
  ℕ, ◌≤◌, ◌≡◌, ◌≢◌, refl, sym, ◌∙◌, subst, Option, none, some, List, arith, All, All-update,
  All-Has, Has-find, ◌==◌, ok, err,
}
use eventmesh.Common.Enums.{DeliveryStatus}
use eventmesh.Common.CircuitBreaker.{CircuitBreaker, record_success, record_failure}
use eventmesh.Common.Classify.{Outcome, ClassificationResult}
use eventmesh.Common.Retry.{RetryPolicy, next_delay, max_attempts}
use eventmesh.Common.Retry.Delays.{next_delay-none_iff}
use eventmesh.Common.Ssrf.{SsrfError, validate_webhook_url}
use eventmesh.Database.{Endpoint, Delivery, Tables, Payload}
use eventmesh.Worker.DeliveryEngine.{
  Settings, Codecs, Attempt, World, save_circuit_breaker, schedule_retry,
}
use eventmesh.Worker.DeliveryEngine.Settle.{failed_row}
use eventmesh.Worker.DeliveryEngine.Deliver.{process_outbox_payload}
use eventmesh.Worker.DeliveryEngine.Outcomes.{classified_as, settled_tables}
use eventmesh.Worker.DeliveryEngine.Effects.{Effect, deliver_to_endpoint-Effect}
use eventmesh.Worker.DeliveryEngine.Circuit.{maybe_complete_event-endpoints}
use eventmesh.Worker.DeliveryEngine.Attempts.{Effect-deliveries}
use eventmesh.Worker.DeliveryEngine.Fanout.{process_outbox_payload-keeps}

ok≢err : {u : Unit {0}} {e : SsrfError} → ok u ≡ err e → ⊥
ok≢err e = cc e

failed_row-not_dlq :
    (o : Outcome) (delay : Option ℕ) (a : Attempt) (d : Delivery)
    → delay ≢ none
    → o ≢ Outcome.success
    → o ≢ Outcome.permanent_failure
    → (failed_row o delay a d).status ≢ DeliveryStatus.dlq
unfolding failed_row
failed_row-not_dlq Outcome.success delay a d some_delay f p = absurd (f refl)
failed_row-not_dlq Outcome.permanent_failure delay a d some_delay f p = absurd (p refl)
failed_row-not_dlq Outcome.retry none a d some_delay f p = absurd (some_delay refl)
failed_row-not_dlq Outcome.retry (some x) a d some_delay f p = λ e. cc e

allows_retry :
    (settings : Settings) (a : Attempt)
    → 2 ≤ settings.retry.max_attempts
    → next_delay (RetryPolicy.exponential settings.retry) a.draw 1 ≢ none
unfolding max_attempts
allows_retry settings a two e =
    let over : settings.retry.max_attempts ≤ 1 =
      (next_delay-none_iff (RetryPolicy.exponential settings.retry) a.draw 1).0 e in
    omega arith

-- At every attempt of the fan-out, the endpoint's URL is accepted.
abbrev pub Reachable : Settings → (ℕ → Attempt) → List Endpoint → Type 0
Reachable settings attempts = All λ e.
    (i : ℕ)
    → validate_webhook_url (attempts i).network e.url settings.max_endpoint_url_length ≡ ok tt

settled-Reachable :
    (settings : Settings) (attempts : ℕ → Attempt) (a : Attempt) (o : Outcome)
    (event_id endpoint_id n : ℕ) (d : Delivery) (cb : CircuitBreaker)
    (result : ClassificationResult) (db : Tables)
    → Reachable settings attempts db.endpoints
    → Reachable settings attempts
        (settled_tables settings a o event_id endpoint_id n d cb result db).endpoints
unfolding save_circuit_breaker
settled-Reachable settings attempts a Outcome.success event_id endpoint_id n d cb result db h =
    All-update _ (λ e. e.id == endpoint_id)
      (λ e. record e { circuit_state = (record_success cb).state.state }) _ (λ e _ k. k)
      (subst (Reachable settings attempts) (sym (maybe_complete_event-endpoints event_id _)) h)
settled-Reachable settings attempts a Outcome.retry event_id endpoint_id n d cb result db h =
    All-update _ (λ e. e.id == endpoint_id)
      (λ e. record e { circuit_state = (record_failure a.failed_at cb).state.state }) db.endpoints
      (λ e _ k. k) h
settled-Reachable settings attempts a Outcome.permanent_failure event_id endpoint_id n d cb result
      db h =
    All-update _ (λ e. e.id == endpoint_id)
      (λ e. record e { circuit_state = (record_failure a.failed_at cb).state.state }) db.endpoints
      (λ e _ k. k) h

Effect-Reachable :
    (settings : Settings) (codecs : Codecs) (attempts : ℕ → Attempt) (a : Attempt)
    (event_id endpoint_id n : ℕ) (w w' : World)
    → Reachable settings attempts w.db.endpoints
    → Effect settings codecs a event_id endpoint_id n w w'
    → Reachable settings attempts w'.db.endpoints
unfolding schedule_retry
Effect-Reachable settings codecs attempts a event_id endpoint_id n w w' h effect = elim effect [
  | Effect.missing m d s ↦ subst (λ (t : Tables). Reachable settings attempts t.endpoints) (sym d) h
  | Effect.held ep cb f al d s ↦
      subst (λ (t : Tables). Reachable settings attempts t.endpoints) (sym d) h
  | Effect.refused ep e f v d s ↦
      subst (λ (t : Tables). Reachable settings attempts t.endpoints) (sym d) h
  | Effect.undecrypted d s ↦
      subst (λ (t : Tables). Reachable settings attempts t.endpoints) (sym d) h
  | Effect.aborted c d s ↦ subst (λ (t : Tables). Reachable settings attempts t.endpoints) (sym d) h
  | Effect.settled c status result e d s ↦
      subst (λ (t : Tables). Reachable settings attempts t.endpoints) (sym d)
        (settled-Reachable settings attempts a result.outcome event_id endpoint_id n _ c.cb result _
          h)
]

-- With a policy of two attempts or more, if every endpoint's URL is accepted whenever it is
-- checked, no answer is classified as a permanent failure and no delivery is in the DLQ, then
-- processing a payload puts none there, whatever attempt number the payload asks for.
pub process_outbox_payload-never_exhausted :
    (settings : Settings) (codecs : Codecs) (attempts : ℕ → Attempt) (payload : Payload) (w : World)
    → 2 ≤ settings.retry.max_attempts
    → Reachable settings attempts w.db.endpoints
    → ((i : ℕ) (status : Option ℕ) (result : ClassificationResult)
        → classified_as (attempts i).reply ≡ some (status, result)
        → result.outcome ≢ Outcome.permanent_failure)
    → All (λ (d : Delivery). d.status ≢ DeliveryStatus.dlq) w.db.deliveries
    → All
        (λ (d : Delivery). d.status ≢ DeliveryStatus.dlq)
        (process_outbox_payload settings codecs attempts payload w).1.db.deliveries
process_outbox_payload-never_exhausted settings codecs attempts payload w two reach passing h =
    (process_outbox_payload-keeps settings codecs attempts
      (λ w.
        Reachable settings attempts w.db.endpoints
        × All (λ (d : Delivery). d.status ≢ DeliveryStatus.dlq) w.db.deliveries)
      payload.event_id
      (λ i endpoint_id w h.
        let effect =
          deliver_to_endpoint-Effect settings codecs (attempts i) payload.event_id endpoint_id 1
            w in
        (
          Effect-Reachable settings codecs attempts (attempts i) payload.event_id endpoint_id 1 w _
              h.0 effect,
          Effect-deliveries settings (attempts i) payload.event_id endpoint_id 1
              (λ d. d.status ≢ DeliveryStatus.dlq) codecs w _ (λ e. cc e) (λ e. cc e)
              (λ e ep f v.
                absurd (
                  ok≢err
                    (sym (All-Has _ w.db.endpoints h.0 (Has-find _ w.db.endpoints f).0 i) ∙ v)))
              (λ status result e. (
                (λ _ x. cc x),
                (λ f.
                    failed_row-not_dlq result.outcome _ (attempts i) _
                      (allows_retry settings (attempts i) two) f (passing i status result e)),
              ))
              h.1 effect,
        ))
      payload w refl (reach, h) (reach, h)).1
