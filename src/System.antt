-- ===== src/System.antt =====
-- The processes together, on one database and one stream. A step is a request to the API, a round of
-- the publisher or of the scheduler, the handling of a message by a worker, or one part of it: a
-- worker's deliveries may interleave with all other steps. The list of accepted events is what the
-- clients know: it grows where `create_event` answers with a new id.
pub mod Consistent
pub mod Accepting
pub mod Growth
pub mod Publishing
pub mod Cleaning
pub mod Delivering
pub mod Refinement
mod Examples
use eventmesh.Base.{
  ℕ, String, ◌≡◌, ◌≢◌, Bool, Option, List, [], ◌∷◌, ◌++◌, ◌==◌, if◌then◌else◌, All, Has, Result, ok,
  err,
}
use eventmesh.Base.Int.{ℤ}
use eventmesh.Common.Enums.{EventStatus}
use eventmesh.Database.{set_event, Event, Delivery, IdempotencyKey, OutboxEvent, Payload, Tables}
use eventmesh.Messaging.Broker.{Message, MessageBroker}
use eventmesh.Api.Auth.{AuthContext}
use eventmesh.Api.Events.{
  ApiSettings, ApiError, EventCreateRequest, Fresh, create_event, replay_event, replay_dlq_entry,
}
use eventmesh.Api.Endpoints.Requests.{Operation, perform}
use eventmesh.Worker.OutboxPublisher.{Rounds, poll}
use eventmesh.Worker.DeliveryEngine.{Settings, Codecs, Attempt, Request, Metric}
use eventmesh.Worker.DeliveryEngine.Deliver.{deliver_to_endpoint, process_outbox_payload}
use eventmesh.Scheduler.{RetentionSettings, requeue_round, cleanup_round}

-- What a client has had accepted: whose event it is, its id, and what it says.
pub record Accepted : Type 0 where
  pub tenant_id : ℕ
  pub event_id : ℕ
  pub event_type : String
  pub entity_id : Option String
  pub sequence : Option ℤ
  pub content : String

abbrev pub of_request : AuthContext → EventCreateRequest → ℕ → Accepted
of_request ctx body event_id = record {
  tenant_id = ctx.tenant_id;
  event_id = event_id;
  event_type = body.event_type;
  entity_id = body.entity_id;
  sequence = body.sequence;
  content = body.content;
}

abbrev pub of_event : Event → Accepted
of_event e = record {
  tenant_id = e.tenant_id;
  event_id = e.id;
  event_type = e.event_type;
  entity_id = e.entity_id;
  sequence = e.sequence_number;
  content = e.payload;
}

abbrev pub of_payload : Payload → Accepted
of_payload p = record {
  tenant_id = p.tenant_id;
  event_id = p.event_id;
  event_type = p.event_type;
  entity_id = p.entity_id;
  sequence = p.sequence;
  content = p.content;
}

-- What the answer of `create_event` adds to the accepted events: an answer with an id that is not
-- the new one repeats an earlier one.
abbrev pub newly_accepted :
    AuthContext → EventCreateRequest → Fresh → Result ApiError ℕ → List Accepted
newly_accepted ctx body fresh (err e) = []
newly_accepted ctx body fresh (ok event_id) =
    if event_id == fresh.event_id then of_request ctx body event_id ∷ [] else []

-- The ids that `uuid4` draws are new.
abbrev pub NewOutboxId : Fresh → Tables → Type 0
NewOutboxId fresh db = All (λ (o : OutboxEvent). o.id ≢ fresh.outbox_id) db.outbox

abbrev pub NewEventId : Fresh → Tables → Type 0
NewEventId fresh db = All (λ (k : IdempotencyKey). k.event_id ≢ fresh.event_id) db.idempotency_keys

module _ (b : MessageBroker) where
  -- The database, the broker and the events that clients have had accepted.
  pub record State : Type 0 where
    pub db : Tables
    pub stream : b.State
    pub accepted : List Accepted

  -- One step of one process.
  pub data Step (s : State) : State → Type 0 where
    create :
        (settings : ApiSettings) (ctx : AuthContext) (body : EventCreateRequest) (fresh : Fresh)
        → NewOutboxId fresh s.db
        → NewEventId fresh s.db
        → Step s (
            let (answer, db') = create_event settings ctx body fresh s.db in
            record {
              db = db';
              stream = s.stream;
              accepted = s.accepted ++ newly_accepted ctx body fresh answer;
            })
    replay :
        (ctx : AuthContext) (event_id : ℕ) (fresh : Fresh)
        → NewOutboxId fresh s.db
        → Step s (record s { db = (replay_event ctx event_id fresh s.db).1 })
    replay_dead :
        (ctx : AuthContext) (delivery_id : ℕ) (fresh : Fresh)
        → NewOutboxId fresh s.db
        → Step s (record s { db = (replay_dlq_entry ctx delivery_id fresh s.db).1 })
    administer :
        (max_length : ℕ) (encrypt_secret : List ℕ → String) (ctx : AuthContext) (op : Operation)
        → Step s (record s { db = perform max_length encrypt_secret ctx op s.db })
    publish :
        (rounds : Rounds) (batch_size i : ℕ)
        → Step s (
            let (db', stream') = poll b rounds batch_size i (s.db, s.stream) in
            record { db = db'; stream = stream'; accepted = s.accepted })
    begin :
        (event_id : ℕ)
        → Step s (record s {
          db = set_event event_id (λ e. record e { status = EventStatus.processing }) s.db;
        })
    deliver_one :
        (settings : Settings) (codecs : Codecs) (a : Attempt) (m : Message) (endpoint_id : ℕ)
        (sent : List Request) (metrics : List Metric)
        → Has m (b.entries s.stream)
        → Step s (record s {
          db =
              (deliver_to_endpoint settings codecs a m.payload.event_id endpoint_id 1
                (record { db = s.db; sent = sent; metrics = metrics })).1.db;
        })
    deliver :
        (settings : Settings) (codecs : Codecs) (attempts : ℕ → Attempt) (m : Message)
        (sent : List Request) (metrics : List Metric)
        → Has m (b.entries s.stream)
        → Step s (record s {
          db =
              (process_outbox_payload settings codecs attempts m.payload
                (record { db = s.db; sent = sent; metrics = metrics })).1.db;
        })
    requeue :
        (returns : List Delivery → List Delivery) (commits : Bool) (now : ℕ)
        → Step s (
            let (db', stream') = requeue_round b returns commits now (s.db, s.stream) in
            record { db = db'; stream = stream'; accepted = s.accepted })
    clean :
        (settings : RetentionSettings) (now : ℕ)
        → Step s (record s { db = cleanup_round settings now s.db })

  -- The states that the processes reach, in any interleaving of their steps.
  pub data Reach (s : State) : State → Type 0 where
    start : Reach s s
    next : {t u : State} → Reach s t → Step t u → Reach s u
