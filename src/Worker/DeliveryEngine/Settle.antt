-- ===== src/Worker/DeliveryEngine/Settle.antt =====
-- apps/worker/eventmesh_worker/delivery_engine.py: what is recorded of an answer.
use eventmesh.Base.{ℕ, ◌+◌, String, Option, none, some, Result, ok}
use eventmesh.Common.Enums.{DeliveryStatus, CircuitState}
use eventmesh.Common.CircuitBreaker.{CircuitBreaker, record_success, record_failure}
use eventmesh.Common.Classify.{Outcome, ClassificationResult}
use eventmesh.Common.Retry.{RetryPolicy, next_delay}
use eventmesh.Database.{Event, Delivery, ErrorMessage, set_delivery}
use eventmesh.Worker.DeliveryEngine.{
  Settings, Attempt, Metric, World, DeliveryOutcomeSummary, EngineError, emit, summary,
  save_circuit_breaker, maybe_complete_event,
}

-- The row of an attempt that failed, by the outcome and the next delay.
unfoldable pub failed_row : Outcome → Option ℕ → Attempt → Delivery → Delivery
failed_row Outcome.permanent_failure delay a d = record d { status = DeliveryStatus.dlq }
failed_row Outcome.retry none a d = record d { status = DeliveryStatus.dlq }
failed_row Outcome.retry (some delay) a d = record d {
  status = DeliveryStatus.retrying;
  next_retry_at = some (a.scheduled_at + delay);
}
failed_row Outcome.success delay a d = record d { status = DeliveryStatus.dlq }

-- The metric of a scheduled retry.
abbrev pub emit_retry : String → Outcome → Option ℕ → World → World
emit_retry event_type Outcome.retry (some delay) w = emit (Metric.delivery_retry_total event_type) w
emit_retry event_type _ _ w = w

-- `if cb.state.state == CircuitState.OPEN: circuit_breaker_open_total.inc()`
abbrev pub emit_opened : CircuitState → World → World
emit_opened CircuitState.opened w = emit Metric.circuit_breaker_open_total w
emit_opened _ w = w

-- The branch of a successful outcome, up to the commit; `d` is the row with its answer.
unfoldable pub settle_success : ℕ → ℕ → Event → Delivery → CircuitBreaker → World → World
settle_success event_id endpoint_id event d cb w =
    let db1 = set_delivery d.id (λ _. record d { status = DeliveryStatus.delivered }) w.db in
    let db2 = maybe_complete_event event_id db1 in
    emit (Metric.delivery_success_total event.event_type)
      (record w { db = save_circuit_breaker endpoint_id (record_success cb) db2 })

-- The row of the delivery with what came back.
abbrev pub answered : Attempt → Option ℕ → Delivery → Delivery
answered a status d = record d {
  http_status = status;
  latency_ms = some a.latency_ms;
  completed_at = some a.completed_at;
}

module _ (settings : Settings) where
  -- The other branch, up to the commit.
  unfoldable pub settle_failure :
      Attempt → ℕ → ℕ → Event → Delivery → CircuitBreaker → ClassificationResult → World → World
  settle_failure a endpoint_id n event d cb result w =
      let cb' = record_failure a.failed_at cb in
      let delay = next_delay (RetryPolicy.exponential settings.retry) a.draw n in
      let row =
        failed_row result.outcome delay a
          (record d { error_message = some (ErrorMessage.classified result.reason) }) in
      let w1 =
        emit (Metric.delivery_failure_total event.event_type result.outcome)
          (emit_opened cb'.state.state w) in
      let w2 = emit_retry event.event_type result.outcome delay w1 in
      record w2 { db = save_circuit_breaker endpoint_id cb' (set_delivery d.id (λ _. row) w2.db) }

  -- `if result.outcome == Outcome.SUCCESS: … else: …`
  unfoldable pub settle_outcome :
      Outcome
      → Attempt
      → ℕ
      → ℕ
      → ℕ
      → Event
      → Delivery
      → CircuitBreaker
      → ClassificationResult
      → World
      → World
  settle_outcome Outcome.success a event_id endpoint_id n event d cb result w =
      settle_success event_id endpoint_id event d cb w
  settle_outcome Outcome.retry a event_id endpoint_id n event d cb result w =
      settle_failure a endpoint_id n event d cb result w
  settle_outcome Outcome.permanent_failure a event_id endpoint_id n event d cb result w =
      settle_failure a endpoint_id n event d cb result w

  -- From the classification of the answer on.
  unfoldable pub settle :
      Attempt
      → ℕ
      → ℕ
      → ℕ
      → Event
      → Delivery
      → CircuitBreaker
      → Option ℕ
      → ClassificationResult
      → World
      → Result EngineError DeliveryOutcomeSummary × World
  settle a event_id endpoint_id n event d cb status result w = (
    ok (summary endpoint_id result.outcome status),
    settle_outcome result.outcome a event_id endpoint_id n event (answered a status d) cb result
        (emit (Metric.delivery_latency event.event_type a.latency_ms) w),
  )
