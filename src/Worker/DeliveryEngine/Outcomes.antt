-- ===== src/Worker/DeliveryEngine/Outcomes.antt =====
-- What the settling of an answer leaves in the database, by the outcome.
use eventmesh.Base.{ℕ, String, ◌≡◌, refl, ◌∙◌, ap, true, false, Option, none, some}
use eventmesh.Common.Enums.{CircuitState, DeliveryStatus}
use eventmesh.Common.CircuitBreaker.{CircuitBreaker, record_success, record_failure}
use eventmesh.Common.Classify.{Outcome, ClassificationResult, classify_response}
use eventmesh.Common.Retry.{RetryPolicy, next_delay}
use eventmesh.Database.{Event, Delivery, ErrorMessage, Tables, set_delivery}
use eventmesh.Worker.DeliveryEngine.{
  Settings, HttpReply, Attempt, World, save_circuit_breaker, Metric, emit, maybe_complete_event,
}
use eventmesh.Worker.DeliveryEngine.Settle.{
  failed_row, settle_outcome, settle_success, settle_failure, emit_opened, emit_retry,
}

-- The status and the classification that an answer leads to; none for what is not caught.
abbrev pub classified_as : HttpReply → Option (Option ℕ × ClassificationResult)
classified_as (HttpReply.response s) = some (some s, classify_response (some s) false false)
classified_as HttpReply.timeout_exception = some (none, classify_response none true false)
classified_as HttpReply.transport_error = some (none, classify_response none false true)
classified_as HttpReply.other_exception = none

-- Two worlds that differ in their metrics at most.
abbrev SameStore : World → World → Type 0
SameStore w w' = (w'.db ≡ w.db) × (w'.sent ≡ w.sent)

emit_opened-SameStore : (c : CircuitState) (w : World) → SameStore w (emit_opened c w)
emit_opened-SameStore CircuitState.opened w = (refl, refl)
emit_opened-SameStore _ w = (refl, refl)

emit_retry-SameStore :
    (t : String) (o : Outcome) (delay : Option ℕ) (w : World) → SameStore w (emit_retry t o delay w)
emit_retry-SameStore t Outcome.retry none w = (refl, refl)
emit_retry-SameStore t Outcome.retry (some d) w = (refl, refl)
emit_retry-SameStore t Outcome.success delay w = (refl, refl)
emit_retry-SameStore t Outcome.permanent_failure delay w = (refl, refl)

module _ (settings : Settings) (a : Attempt) where
  -- The row of a failed attempt.
  abbrev pub failure_row : ℕ → ClassificationResult → Delivery → Delivery
  failure_row n result d =
      failed_row result.outcome (next_delay (RetryPolicy.exponential settings.retry) a.draw n) a
        (record d { error_message = some (ErrorMessage.classified result.reason) })

  -- The database once an answer is settled.
  abbrev pub settled_tables :
      Outcome → ℕ → ℕ → ℕ → Delivery → CircuitBreaker → ClassificationResult → Tables → Tables
  settled_tables Outcome.success event_id endpoint_id n d cb result db =
      save_circuit_breaker endpoint_id (record_success cb) (
        maybe_complete_event event_id
          (set_delivery d.id (λ _. record d { status = DeliveryStatus.delivered }) db))
  settled_tables _ event_id endpoint_id n d cb result db =
      save_circuit_breaker endpoint_id (record_failure a.failed_at cb)
        (set_delivery d.id (λ _. failure_row n result d) db)

  settle_failure-tables :
      (endpoint_id n : ℕ) (event : Event) (d : Delivery) (cb : CircuitBreaker)
      (result : ClassificationResult) (w : World)
      → let w' = settle_failure settings a endpoint_id n event d cb result w in
        (w'.db
          ≡ save_circuit_breaker endpoint_id
              (record_failure a.failed_at cb)
              (set_delivery d.id (λ _. failure_row n result d) w.db))
        × (w'.sent ≡ w.sent)
  unfolding settle_failure
  settle_failure-tables endpoint_id n event d cb result w =
      let opened = emit_opened-SameStore (record_failure a.failed_at cb).state.state w in
      let delay = next_delay (RetryPolicy.exponential settings.retry) a.draw n in
      let retried = emit_retry-SameStore event.event_type result.outcome delay in
      let w1 =
        emit (Metric.delivery_failure_total event.event_type result.outcome)
          (emit_opened (record_failure a.failed_at cb).state.state w) in
      (
        ap
            (λ t.
              save_circuit_breaker endpoint_id (record_failure a.failed_at cb)
                (set_delivery d.id (λ _. failure_row n result d) t))
            ((retried w1).0 ∙ opened.0),
        (retried w1).1 ∙ opened.1,
      )

  pub settle_outcome-tables :
      (o : Outcome) (event_id endpoint_id n : ℕ) (event : Event) (d : Delivery)
      (cb : CircuitBreaker) (result : ClassificationResult) (w : World)
      → let w' = settle_outcome settings o a event_id endpoint_id n event d cb result w in
        (w'.db ≡ settled_tables o event_id endpoint_id n d cb result w.db) × (w'.sent ≡ w.sent)
  unfolding settle_outcome settle_success
  settle_outcome-tables Outcome.success event_id endpoint_id n event d cb result w = (refl, refl)
  settle_outcome-tables Outcome.retry event_id endpoint_id n event d cb result w =
      settle_failure-tables endpoint_id n event d cb result w
  settle_outcome-tables Outcome.permanent_failure event_id endpoint_id n event d cb result w =
      settle_failure-tables endpoint_id n event d cb result w
