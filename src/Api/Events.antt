-- ===== src/Api/Events.antt =====
-- apps/api/eventmesh_api/routers/events.py and the replay of routers/deliveries.py: a handler, run
-- with its session on its own, as a function of the database. The request is parsed and its API key
-- accepted; what FastAPI does for that is outside the model.
pub mod Columns
pub mod Idempotency
pub mod Reading
pub mod Repeats
pub mod Racing
pub mod Tenancy
pub mod Submitted
mod Examples
use eventmesh.Base.{
  ℕ, zero, ◌+◌, ◌*◌, String, Bool, true, false, ◌&&◌, ◌||◌, not, Option, none, some, List, [], ◌∷◌,
  ◌++◌, ◌==◌, str_eq, ltb, find, if◌then◌else◌, Result, ok, err,
}
use eventmesh.Base.Int.{ℤ}
use eventmesh.Common.Enums.{EventStatus, DeliveryStatus, OutboxStatus}
use Columns.{is_storable_text, is_storable_number, is_storable_option}
use eventmesh.Database.{
  Event, Delivery, IdempotencyKey, OutboxEvent, Payload, Tables, get_event, get_delivery, set_event,
}
use eventmesh.Scheduler.{is_dlq}
use eventmesh.Api.Auth.{AuthContext}

-- `EventCreateRequest`, with the two headers that the handler reads. Whether `jsonb` has a value for
-- the content, as it has none for one with a NUL character, is the server's to say.
pub record EventCreateRequest : Type 0 where
  pub event_type : String
  pub source : Option String
  pub entity_id : Option String
  pub sequence : Option ℤ
  pub content : String
  pub is_jsonb : Bool
  pub idempotency_key : Option String
  pub content_length : ℕ

-- The settings that the handler reads.
pub record ApiSettings : Type 0 where
  pub max_event_payload_bytes : ℕ
  pub idempotency_key_ttl_days : ℕ

-- The ids that `uuid4` draws and the clock, for one call.
pub record Fresh : Type 0 where
  pub event_id : ℕ
  pub outbox_id : ℕ
  pub key_id : ℕ
  pub now : ℕ

-- `HTTPException`, by its code, or an exception of the database, which no handler catches: the client
-- gets the status 500.
pub data ApiError : Type 0 where
  payload_too_large not_found invalid_state database_error : ApiError

-- `if idempotency_key:` — an empty header is as good as none
abbrev pub truthy : Option String → Option String
truthy none = none
truthy (some key) = if str_eq key "" then none else some key

-- The query for a key. Its columns are unique together, so that it returns at most one row.
abbrev pub find_key : ℕ → String → Tables → Option IdempotencyKey
find_key tenant_id key db =
    find (λ (k : IdempotencyKey). k.tenant_id == tenant_id && str_eq k.key key) db.idempotency_keys

-- `Event(id=uuid4(), …, status=RECEIVED)`
abbrev pub new_event : ℕ → EventCreateRequest → Fresh → Event
new_event tenant_id body fresh = record {
  id = fresh.event_id;
  tenant_id = tenant_id;
  event_type = body.event_type;
  source = body.source;
  entity_id = body.entity_id;
  sequence_number = body.sequence;
  payload = body.content;
  status = EventStatus.received;
  created_at = fresh.now;
}

-- The outbox row of an event; a replay says so, and may name one endpoint.
abbrev pub outbox_for : String → Bool → Option ℕ → ℕ → Event → Fresh → OutboxEvent
outbox_for aggregate_type is_replay target tenant_id event fresh = record {
  id = fresh.outbox_id;
  aggregate_type = aggregate_type;
  aggregate_id = event.id;
  event_id = event.id;
  payload = record {
    event_id = event.id;
    tenant_id = tenant_id;
    event_type = event.event_type;
    entity_id = event.entity_id;
    sequence = event.sequence_number;
    content = event.payload;
    created_at = fresh.now;
    is_replay = is_replay;
    target_endpoint_id = target;
    retry_attempt_number = none;
  };
  status = OutboxStatus.pending;
  attempts = 0;
  created_at = fresh.now;
  published_at = none;
}

-- `IdempotencyKey(…)`
abbrev pub new_key : ApiSettings → ℕ → String → Fresh → IdempotencyKey
new_key settings tenant_id key fresh = record {
  id = fresh.key_id;
  tenant_id = tenant_id;
  key = key;
  event_id = fresh.event_id;
  expires_at = fresh.now + settings.idempotency_key_ttl_days * 86_400_000_000;
}

-- The keys after the event is stored.
abbrev pub add_key :
    ApiSettings → ℕ → Option String → Fresh → List IdempotencyKey → List IdempotencyKey
add_key settings tenant_id none fresh keys = keys
add_key settings tenant_id (some key) fresh keys = keys ++ new_key settings tenant_id key fresh ∷ []

-- The row of a key that was seen before.
abbrev pub seen : ℕ → Option String → Tables → Option IdempotencyKey
seen tenant_id none db = none
seen tenant_id (some key) db = find_key tenant_id key db

-- What `session.add` gives the session, from `event = Event(…)` up to the commit.
unfoldable pub store_event :
    ApiSettings → ℕ → Option String → EventCreateRequest → Fresh → Tables → Tables
store_event settings tenant_id key body fresh db =
    let event = new_event tenant_id body fresh in
    record db {
      events = db.events ++ event ∷ [];
      outbox = db.outbox ++ outbox_for "event" false none tenant_id event fresh ∷ [];
      idempotency_keys = add_key settings tenant_id key fresh db.idempotency_keys;
    }

-- Every value fits its column.
abbrev pub is_storable : Option String → EventCreateRequest → Bool
is_storable key body =
    is_storable_text body.event_type
    && is_storable_option is_storable_text body.source
    && is_storable_option is_storable_text body.entity_id
    && is_storable_option is_storable_number body.sequence
    && is_storable_option is_storable_text key
    && body.is_jsonb

-- `await session.commit()` and the answer. A value that does not fit its column makes the database
-- raise, and the session is dropped with all that was added.
unfoldable pub commit_new :
    ApiSettings
    → ℕ
    → Option String
    → EventCreateRequest
    → Fresh
    → Tables
    → Result ApiError ℕ × Tables
commit_new settings tenant_id key body fresh db =
    if is_storable key body
    then (ok fresh.event_id, store_event settings tenant_id key body fresh db)
    else (err ApiError.database_error, db)

-- `create_event`: the id of the event, and the database after the call.
unfoldable pub create_event :
    ApiSettings → AuthContext → EventCreateRequest → Fresh → Tables → Result ApiError ℕ × Tables
create_event settings ctx body fresh db =
    let key = truthy body.idempotency_key in
    if ltb settings.max_event_payload_bytes body.content_length
    then (err ApiError.payload_too_large, db)
    else elim (seen ctx.tenant_id key db) [
      | some row ↦ (ok row.event_id, db)
      | none ↦ commit_new settings ctx.tenant_id key body fresh db
    ]

-- `if event is None or event.tenant_id != ctx.tenant_id: raise 404`
abbrev pub owned : AuthContext → Option Event → Result ApiError Event
owned ctx none = err ApiError.not_found
owned ctx (some event) =
    if event.tenant_id == ctx.tenant_id then ok event else err ApiError.not_found

-- `get_event` of the router
unfoldable pub read_event : AuthContext → ℕ → Tables → Result ApiError Event
read_event ctx event_id db = owned ctx (get_event event_id db)

abbrev pub add_outbox : OutboxEvent → Tables → Tables
add_outbox row db = record db { outbox = db.outbox ++ row ∷ [] }

-- `event.status = EventStatus.QUEUED.value`
abbrev pub requeue_event : ℕ → Tables → Tables
requeue_event event_id = set_event event_id λ e. record e { status = EventStatus.queued }

-- `replay_event`, by the event that was loaded and checked
unfoldable pub replay_found :
    Result ApiError Event → AuthContext → Fresh → Tables → Result ApiError ℕ × Tables
replay_found (err e) ctx fresh db = (err e, db)
replay_found (ok event) ctx fresh db = (
  ok event.id,
  requeue_event event.id
      (add_outbox (outbox_for "event_replay" true none ctx.tenant_id event fresh) db),
)

unfoldable pub replay_event : AuthContext → ℕ → Fresh → Tables → Result ApiError ℕ × Tables
replay_event ctx event_id fresh db = replay_found (owned ctx (get_event event_id db)) ctx fresh db

abbrev pub and_event : Delivery → Result ApiError Event → Result ApiError (Delivery × Event)
and_event d (err e) = err e
and_event d (ok event) = ok (d, event)

abbrev pub owned_delivery :
    AuthContext → Tables → Option Delivery → Result ApiError (Delivery × Event)
owned_delivery ctx db none = err ApiError.not_found
owned_delivery ctx db (some d) = and_event d (owned ctx (get_event d.event_id db))

-- `get_delivery` of the router, with its two tests; a replay starts with the same.
unfoldable pub read_delivery : AuthContext → ℕ → Tables → Result ApiError (Delivery × Event)
read_delivery ctx delivery_id db = owned_delivery ctx db (get_delivery delivery_id db)

-- `replay_dlq_entry`, from the test of the status on
unfoldable pub replay_loaded :
    Result ApiError (Delivery × Event) → AuthContext → Fresh → Tables → Result ApiError ℕ × Tables
replay_loaded (err e) ctx fresh db = (err e, db)
replay_loaded (ok (d, event)) ctx fresh db =
    if is_dlq d.status
    then (
      ok event.id,
      add_outbox (outbox_for "dlq_replay" true (some d.endpoint_id) ctx.tenant_id event fresh) db,
    )
    else (err ApiError.invalid_state, db)

unfoldable pub replay_dlq_entry : AuthContext → ℕ → Fresh → Tables → Result ApiError ℕ × Tables
replay_dlq_entry ctx delivery_id fresh db =
    replay_loaded (read_delivery ctx delivery_id db) ctx fresh db
