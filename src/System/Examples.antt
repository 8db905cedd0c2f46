-- ===== src/System/Examples.antt =====
-- An event's way through the system: accepted, published, handed to a worker, and cleaned up.
use eventmesh.Base.{◌+◌, ◌≡◌, ◌⊎◌, ◌++◌, refl, true, false, none, some, [], ◌∷◌, All, inl}
use eventmesh.Messaging.Broker.{Message, Origin}
use eventmesh.Messaging.Sample.{reliable, reliable-Appends}
use eventmesh.Database.Sample.{tables}
use eventmesh.Api.Auth.{AuthContext}
use eventmesh.Api.Events.{
  ApiSettings, EventCreateRequest, Fresh, create_event, store_event, commit_new,
}
use eventmesh.Scheduler.{RetentionSettings, cleanup_round}
use eventmesh.Worker.OutboxPublisher.{
  Rounds, poll, publish_batch, publish_rows, publish_row, due_rows,
}
use eventmesh.Worker.DeliveryEngine.Deliver.{process_outbox_payload}
use eventmesh.Worker.DeliveryEngine.Sample.{settings, codecs, failing}
use eventmesh.System.{State, Step, Reach, newly_accepted}
use eventmesh.System.Consistent.{Streamed}
use eventmesh.System.Refinement.{Initial, Moves, Waiting, GivenUp, view, Reach-Waiting, Reach-Moves}

abbrev api : ApiSettings
api = record { max_event_payload_bytes = 262144; idempotency_key_ttl_days = 7 }

abbrev client : AuthContext
client = record { tenant_id = 1; api_key_id = 2; plan = "free" }

abbrev request : EventCreateRequest
request = record {
  event_type = "order.created";
  source = none;
  entity_id = none;
  sequence = none;
  content = "{}";
  is_jsonb = true;
  idempotency_key = some "k1";
  content_length = 20;
}

abbrev drawn : Fresh
drawn = record { event_id = 21; outbox_id = 22; key_id = 23; now = 9000 }

abbrev rounds : Rounds
rounds = record {
  clock = λ i. 9500 + i;
  locked = λ i id. false;
  running = λ i. true;
  commits = λ i. true;
}

abbrev retention : RetentionSettings
retention = record {
  retention_events_days = 30;
  retention_deliveries_days = 30;
  retention_dlq_days = 90;
}

abbrev first : State reliable
first = record {
  db = record tables { events = []; deliveries = []; outbox = [] };
  stream = [];
  accepted = [];
}

first-Initial : Initial reliable first
first-Initial = record { outbox = refl; events = refl; keys = refl; stream = refl; accepted = refl }

abbrev created : State reliable
created = record {
  db = (create_event api client request drawn first.db).1;
  stream = [];
  accepted =
      [] ++ newly_accepted client request drawn (create_event api client request drawn first.db).0;
}

abbrev published : State reliable
published = record {
  db = (poll reliable rounds 10 0 (created.db, created.stream)).0;
  stream = (poll reliable rounds 10 0 (created.db, created.stream)).1;
  accepted = created.accepted;
}

abbrev message : Message
message = record {
  outbox_id = Origin.outbox 22;
  payload = record {
    event_id = 21;
    tenant_id = 1;
    event_type = "order.created";
    entity_id = none;
    sequence = none;
    content = "{}";
    created_at = 9000;
    is_replay = false;
    target_endpoint_id = none;
    retry_attempt_number = none;
  };
}

in_stream : published.stream ≡ message ∷ []
unfolding poll publish_batch publish_rows publish_row due_rows create_event commit_new store_event
in_stream = refl

abbrev delivered : State reliable
delivered = record published {
  db =
      (process_outbox_payload settings codecs failing message.payload
        (record { db = published.db; sent = []; metrics = [] })).1.db;
}

run : Reach reliable first delivered
run =
    Reach.next
      (Reach.next (Reach.next Reach.start (Step.create api client request drawn tt tt))
        (Step.publish rounds 10 0))
      (Step.deliver settings codecs failing message [] [] (rw in_stream (inl refl)))

Reach-Waiting_example :
    All
      (λ x.
        Waiting x delivered.db.outbox ⊎ GivenUp x delivered.db.outbox ⊎ Streamed x delivered.stream)
      delivered.accepted
Reach-Waiting_example = Reach-Waiting reliable first delivered reliable-Appends first-Initial run

Reach-Moves_example :
    Moves
      (view reliable delivered)
      (view reliable (record delivered { db = cleanup_round retention 9600 delivered.db }))
Reach-Moves_example =
    Reach-Moves reliable first delivered _ reliable-Appends first-Initial run
      (Step.clean retention 9600)
