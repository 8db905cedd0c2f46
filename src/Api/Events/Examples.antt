-- ===== src/Api/Events/Examples.antt =====
-- The handlers on a small database.
use Prim.Native.String.{◌++◌ as text_append}
use eventmesh.Base.{
  ℕ, ◌*◌, ◌≤◌, zero, suc, ◌≡◌, ◌≢◌, refl, true, false, str_eq, none, some, [], ◌∷◌, ◌⊎◌, ok, err,
  String, eq_iff, arith,
}
use eventmesh.Common.Enums.{DeliveryStatus}
use eventmesh.Database.{Event, Delivery, Tables, get_event, get_delivery}
use eventmesh.Database.Sample.{tables, order_event, failed_delivery, dead_delivery}
use eventmesh.Api.Auth.{AuthContext}
use eventmesh.Api.Events.{
  ApiSettings, ApiError, EventCreateRequest, new_event, commit_new, Fresh, create_event,
  read_delivery, replay_dlq_entry, outbox_for, add_outbox,
}
use eventmesh.Api.Events.Reading.{Readable, create_event-Readable}
use eventmesh.Scheduler.{RetentionSettings}
use eventmesh.Api.Events.Racing.{CommitError, create_event_between, create_event_race}
use eventmesh.Api.Schemas.{EventBody}
use eventmesh.Api.Events.Submitted.{
  SubmitError, request_of, submit_event, RowsFit, Submitted, submit_event-Submitted,
}
use eventmesh.Migrations.{apply, run}
use eventmesh.Migrations.Sample.{before, after, server, before-Spared, upgraded}
use eventmesh.Api.Events.Tenancy.{replay_dlq_entry_owned}

abbrev settings : ApiSettings
settings = record { max_event_payload_bytes = 262144; idempotency_key_ttl_days = 7 }

abbrev client : AuthContext
client = record { tenant_id = 1; api_key_id = 2; plan = "free" }

abbrev request : EventCreateRequest
request = record {
  event_type = "order.created";
  source = none;
  entity_id = none;
  sequence = none;
  content = "{}";
  is_jsonb = true;
  idempotency_key = some "k1";
  content_length = 20;
}

abbrev first_call : Fresh
first_call = record { event_id = 21; outbox_id = 22; key_id = 23; now = 9000 }

abbrev second_call : Fresh
second_call = record { event_id = 31; outbox_id = 32; key_id = 33; now = 9900 }

abbrev other_call : Fresh
other_call = record { event_id = 41; outbox_id = 42; key_id = 43; now = 9500 }

abbrev retention : RetentionSettings
retention = record {
  retention_events_days = 30;
  retention_deliveries_days = 30;
  retention_dlq_days = 90;
}

abbrev dead_tables : Tables
dead_tables = record tables { deliveries = dead_delivery ∷ [] }

not_empty : (k : String) → str_eq k "" ≡ false → k ≢ ""
not_empty k f e = cc ((eq_iff k "").1 e, f)

-- Another request, and a cleanup six days later
abbrev six_days : ℕ
six_days = 6 * 86_400_000_000

abbrev between : Tables
between =
    (create_event settings client (record request { idempotency_key = none }) other_call
      (create_event settings client request first_call tables).1).1

create_event-Readable_example :
    Readable client request first_call (create_event settings client request first_call tables).1
create_event-Readable_example =
    create_event-Readable settings client request first_call tables (omega arith) refl refl
      (omega arith, tt)

found : read_delivery client 9 tables ≡ ok (failed_delivery, order_event)
unfolding read_delivery
found = refl

replay_dlq_entry_owned_example :
    (((error : ApiError) × ((replay_dlq_entry client 9 first_call dead_tables).0 ≡ err error))
      × ((replay_dlq_entry client 9 first_call dead_tables).1 ≡ dead_tables))
    ⊎ ((d : Delivery) × (e : Event) × ((get_delivery 9 dead_tables ≡ some d)
          × (get_event d.event_id dead_tables ≡ some e)
          × (e.tenant_id ≡ 1))
        × (d.status ≡ DeliveryStatus.dlq)
        × ((replay_dlq_entry client 9 first_call dead_tables).0 ≡ ok e.id)
        × ((replay_dlq_entry client 9 first_call dead_tables).1
            ≡ add_outbox
                (outbox_for "dlq_replay" true (some d.endpoint_id) 1 e first_call)
                dead_tables))
replay_dlq_entry_owned_example = replay_dlq_entry_owned client 9 first_call dead_tables

create_event_race_example :
    let (answer, db') = create_event_between settings client request first_call tables tables in
    (answer ≡ ok 21)
    × (db' ≡ (create_event settings client request first_call tables).1)
    × (create_event_between settings client request second_call tables db'
        ≡ (err CommitError.integrity_error, db'))
create_event_race_example =
    create_event_race settings client request request first_call second_call tables "k1"
      (not_empty "k1" refl) refl refl refl (omega arith) (omega arith) refl refl

-- A source of 256 characters passes the validation, but does not fit.
abbrev repeated : ℕ → String
repeated zero = ""
repeated (suc n) = text_append "x" (repeated n)

abbrev long_body : EventBody
long_body = record {
  event_type = "order.created";
  content = none;
  source = some (repeated 256);
  entity_id = none;
  sequence = none;
}

submit_event-Submitted_example :
    Submitted after settings client long_body true none 20 first_call tables
submit_event-Submitted_example =
    submit_event-Submitted server before after before-Spared upgraded settings client long_body true
      none 20 first_call tables "order.created" refl (omega arith) refl

long_body_lost :
    submit_event settings client long_body true none 20 first_call tables
    ≡ (err (SubmitError.refused ApiError.database_error), tables)
unfolding submit_event create_event commit_new
long_body_lost = refl

too_long : RowsFit after (new_event 1 (request_of long_body true none 20) first_call) none true → ⊥
unfolding run apply
too_long h = let bad : 256 ≤ 255 = h.source.0 in omega (arith, bad)
