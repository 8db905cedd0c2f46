-- ===== src/Scheduler.antt =====
-- apps/scheduler/eventmesh_scheduler/main.py: one round of each loop. A round works on its session's
-- view, which becomes the database if the commit is reached; the rows that a query without ORDER BY
-- returns, less those that others have locked, are the database's choice, an argument.
pub mod Requeue
pub mod Retention
mod Examples
use eventmesh.Base.{
  ℕ, ◌+◌, ◌-◌, ◌*◌, Bool, true, false, ◌&&◌, ◌||◌, not, Option, none, some, List, [], ◌∷◌, ◌==◌,
  ltb, leb, any, if◌then◌else◌, take, select,
}
use eventmesh.Common.Enums.{DeliveryStatus, OutboxStatus}
use eventmesh.Database.{
  Event, Delivery, IdempotencyKey, OutboxEvent, Tables, get_event, set_delivery,
}
use eventmesh.Messaging.Broker.{Message, MessageBroker, Origin}

-- `Delivery.status == DeliveryStatus.RETRYING.value`
abbrev pub is_retrying : DeliveryStatus → Bool
is_retrying DeliveryStatus.retrying = true
is_retrying _ = false

-- `Delivery.next_retry_at <= now`, which NULL does not pass
abbrev pub has_come : ℕ → Option ℕ → Bool
has_come now none = false
has_come now (some t) = leb t now

-- The test of the query for due retries.
abbrev pub is_due : ℕ → Delivery → Bool
is_due now d = is_retrying d.status && has_come now d.next_retry_at

-- The message of a retry.
abbrev pub retry_message : Event → Delivery → Message
retry_message event d = record {
  outbox_id = Origin.retry d.id;
  payload = record {
    event_id = event.id;
    tenant_id = event.tenant_id;
    event_type = event.event_type;
    entity_id = event.entity_id;
    sequence = event.sequence_number;
    content = event.payload;
    created_at = event.created_at;
    is_replay = false;
    target_endpoint_id = some d.endpoint_id;
    retry_attempt_number = some (d.attempt_number + 1);
  };
}

-- `delivery.status = DeliveryStatus.QUEUED.value`
abbrev pub requeued : Delivery → Delivery
requeued d = record d { status = DeliveryStatus.queued }

module _ (b : MessageBroker) where
  open b use {State, publish}

  -- One pass of the loop over the due rows, by the event that was loaded; `false` is an exception.
  unfoldable pub requeue_loaded : Option Event → Delivery → Tables × State → Bool × Tables × State
  requeue_loaded none d (db, s) = (true, db, s)
  requeue_loaded (some event) d (db, s) =
      let (returned, s') = publish (retry_message event d) s in
      (returned, (if returned then set_delivery d.id requeued db else db), s')

  unfoldable pub requeue_rows : List Delivery → Tables × State → Bool × Tables × State
  requeue_rows [] (db, s) = (true, db, s)
  requeue_rows (d ∷ ds) (db, s) =
      let (going, db1, s1) = requeue_loaded (get_event d.event_id db) d (db, s) in
      let rest = requeue_rows ds (db1, s1) in if going then rest else (false, db1, s1)

  -- One round of `retry_requeue_loop`.
  unfoldable pub requeue_round :
      (List Delivery → List Delivery) → Bool → ℕ → Tables × State → Tables × State
  requeue_round returns commits now (db, s) =
      let due = take 100 (returns (select (is_due now) db.deliveries)) in
      let (going, db', s') = requeue_rows due (db, s) in (if going && commits then db' else db, s')

-- The retention settings, in days.
pub record RetentionSettings : Type 0 where
  pub retention_events_days : ℕ
  pub retention_deliveries_days : ℕ
  pub retention_dlq_days : ℕ

-- `now - timedelta(days=…)`; a clock earlier than that is outside the model.
abbrev pub days_before : ℕ → ℕ → ℕ
days_before days now = now - days * 86_400_000_000

abbrev pub is_dlq : DeliveryStatus → Bool
is_dlq DeliveryStatus.dlq = true
is_dlq _ = false

abbrev pub is_published : OutboxStatus → Bool
is_published OutboxStatus.published = true
is_published _ = false

-- The deliveries that the second and the third statement leave.
abbrev pub keeps_delivery : RetentionSettings → ℕ → Delivery → Bool
keeps_delivery settings now d =
    not (
      not (is_dlq d.status)
      && ltb d.created_at (days_before settings.retention_deliveries_days now))
    && not (is_dlq d.status && ltb d.created_at (days_before settings.retention_dlq_days now))

-- The outbox rows that the fourth statement leaves.
abbrev pub keeps_outbox : RetentionSettings → ℕ → OutboxEvent → Bool
keeps_outbox settings now o =
    not (is_published o.status && ltb o.created_at (days_before settings.retention_events_days now))

-- The idempotency keys that the first statement leaves.
abbrev pub keeps_key : ℕ → IdempotencyKey → Bool
keeps_key now k = not (ltb k.expires_at now)

-- The events that the last statement leaves.
abbrev pub keeps_event : RetentionSettings → ℕ → Event → Bool
keeps_event settings now e = not (ltb e.created_at (days_before settings.retention_events_days now))

-- Some row refers to the event by a foreign key.
abbrev pub is_referenced : Tables → Event → Bool
is_referenced db e =
    any (λ (d : Delivery). d.event_id == e.id) db.deliveries
    || any (λ (o : OutboxEvent). o.event_id == e.id) db.outbox
    || any (λ (k : IdempotencyKey). k.event_id == e.id) db.idempotency_keys

-- The session's view before the last statement.
abbrev pub before_events : RetentionSettings → ℕ → Tables → Tables
before_events settings now db = record db {
  idempotency_keys = select (keeps_key now) db.idempotency_keys;
  deliveries = select (keeps_delivery settings now) db.deliveries;
  outbox = select (keeps_outbox settings now) db.outbox;
}

-- One round of `cleanup_loop`. The foreign keys on events have no ON DELETE: deleting an event that
-- a row refers to raises, and the session is dropped with all that it deleted.
unfoldable pub cleanup_round : RetentionSettings → ℕ → Tables → Tables
cleanup_round settings now db =
    let view = before_events settings now db in
    if any (λ e. not (keeps_event settings now e) && is_referenced view e) view.events
    then db
    else record view { events = select (keeps_event settings now) view.events }
