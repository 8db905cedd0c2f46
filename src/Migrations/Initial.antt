-- ===== src/Migrations/Initial.antt =====
-- migrations/versions/0001_initial.py: `upgrade` and `downgrade`, operation by operation.
use eventmesh.Base.{List, [], ◌∷◌, true}
use eventmesh.Migrations.{
  uuid, text, integer, big_integer, boolean, jsonb, string, date_time, is_false, Table, Operation,
  create_table, create_index, drop_table,
}
use eventmesh.Migrations.Columns.{
  required, optional, primary, unique, reference, defaults_to, stamped,
}

abbrev pub tenants : Table
tenants = record {
  name = "tenants";
  columns =
      primary (required "id" uuid)
      ∷ required "name" (string 255)
      ∷ required "plan" (string 50)
      ∷ required "status" (string 30)
      ∷ stamped true "created_at"
      ∷ stamped true "updated_at"
      ∷ [];
  unique_constraints = [];
}

abbrev pub api_keys : Table
api_keys = record {
  name = "api_keys";
  columns =
      primary (required "id" uuid)
      ∷ reference "tenant_id" "tenants"
      ∷ required "key_prefix" (string 32)
      ∷ unique (required "key_hash" (string 128))
      ∷ required "name" (string 255)
      ∷ required "role" (string 30)
      ∷ optional "last_used_at" (date_time true)
      ∷ stamped true "created_at"
      ∷ optional "revoked_at" (date_time true)
      ∷ [];
  unique_constraints = [];
}

abbrev pub endpoints : Table
endpoints = record {
  name = "endpoints";
  columns =
      primary (required "id" uuid)
      ∷ reference "tenant_id" "tenants"
      ∷ required "url" text
      ∷ optional "description" text
      ∷ required "secret_encrypted" text
      ∷ required "status" (string 30)
      ∷ required "timeout_ms" integer
      ∷ required "max_retries" integer
      ∷ required "circuit_state" (string 20)
      ∷ stamped true "created_at"
      ∷ stamped true "updated_at"
      ∷ [];
  unique_constraints = [];
}

abbrev pub endpoint_subscriptions : Table
endpoint_subscriptions = record {
  name = "endpoint_subscriptions";
  columns =
      primary (reference "endpoint_id" "endpoints")
      ∷ primary (required "event_type" (string 255))
      ∷ [];
  unique_constraints = [];
}

abbrev pub events : Table
events = record {
  name = "events";
  columns =
      primary (required "id" uuid)
      ∷ reference "tenant_id" "tenants"
      ∷ required "event_type" (string 255)
      ∷ optional "source" (string 255)
      ∷ optional "entity_id" (string 255)
      ∷ optional "sequence_number" big_integer
      ∷ required "payload" jsonb
      ∷ required "status" (string 50)
      ∷ stamped true "created_at"
      ∷ stamped true "updated_at"
      ∷ [];
  unique_constraints = [];
}

abbrev pub deliveries : Table
deliveries = record {
  name = "deliveries";
  columns =
      primary (required "id" uuid)
      ∷ reference "event_id" "events"
      ∷ reference "endpoint_id" "endpoints"
      ∷ required "attempt_number" integer
      ∷ required "status" (string 50)
      ∷ optional "http_status" integer
      ∷ optional "latency_ms" integer
      ∷ optional "error_code" (string 100)
      ∷ optional "error_message" text
      ∷ optional "started_at" (date_time true)
      ∷ optional "completed_at" (date_time true)
      ∷ optional "next_retry_at" (date_time true)
      ∷ defaults_to is_false (required "is_replay" boolean)
      ∷ stamped true "created_at"
      ∷ [];
  unique_constraints = [];
}

abbrev pub idempotency_keys : Table
idempotency_keys = record {
  name = "idempotency_keys";
  columns =
      primary (required "id" uuid)
      ∷ reference "tenant_id" "tenants"
      ∷ required "key" (string 255)
      ∷ reference "event_id" "events"
      ∷ stamped true "created_at"
      ∷ required "expires_at" (date_time true)
      ∷ [];
  unique_constraints = ("uq_idempotency_tenant_key", "tenant_id" ∷ "key" ∷ []) ∷ [];
}

abbrev pub outbox_events : Table
outbox_events = record {
  name = "outbox_events";
  columns =
      primary (required "id" uuid)
      ∷ required "aggregate_type" (string 100)
      ∷ required "aggregate_id" uuid
      ∷ reference "event_id" "events"
      ∷ required "payload" jsonb
      ∷ required "status" (string 30)
      ∷ required "attempts" integer
      ∷ stamped true "created_at"
      ∷ optional "published_at" (date_time true)
      ∷ [];
  unique_constraints = [];
}

-- `upgrade`
abbrev pub upgrade : List Operation
upgrade =
    create_table tenants
    ∷ create_table api_keys
    ∷ create_index
        (record { name = "ix_api_keys_tenant_id"; table = "api_keys"; columns = "tenant_id" ∷ [] })
    ∷ create_index (record {
      name = "ix_api_keys_key_prefix";
      table = "api_keys";
      columns = "key_prefix" ∷ [];
    })
    ∷ create_table endpoints
    ∷ create_index (record {
      name = "ix_endpoints_tenant_id";
      table = "endpoints";
      columns = "tenant_id" ∷ [];
    })
    ∷ create_index (record {
      name = "ix_endpoints_tenant_status";
      table = "endpoints";
      columns = "tenant_id" ∷ "status" ∷ [];
    })
    ∷ create_table endpoint_subscriptions
    ∷ create_table events
    ∷ create_index
        (record { name = "ix_events_tenant_id"; table = "events"; columns = "tenant_id" ∷ [] })
    ∷ create_index (record {
      name = "ix_events_tenant_created";
      table = "events";
      columns = "tenant_id" ∷ "created_at" ∷ [];
    })
    ∷ create_index (record {
      name = "ix_events_tenant_type";
      table = "events";
      columns = "tenant_id" ∷ "event_type" ∷ [];
    })
    ∷ create_index (record {
      name = "ix_events_entity_seq";
      table = "events";
      columns = "entity_id" ∷ "sequence_number" ∷ [];
    })
    ∷ create_index (record { name = "ix_events_status"; table = "events"; columns = "status" ∷ [] })
    ∷ create_table deliveries
    ∷ create_index (record {
      name = "ix_deliveries_event_id";
      table = "deliveries";
      columns = "event_id" ∷ [];
    })
    ∷ create_index (record {
      name = "ix_deliveries_endpoint_id";
      table = "deliveries";
      columns = "endpoint_id" ∷ [];
    })
    ∷ create_index
        (record { name = "ix_deliveries_status"; table = "deliveries"; columns = "status" ∷ [] })
    ∷ create_index (record {
      name = "ix_deliveries_next_retry_at";
      table = "deliveries";
      columns = "next_retry_at" ∷ [];
    })
    ∷ create_table idempotency_keys
    ∷ create_table outbox_events
    ∷ create_index (record {
      name = "ix_outbox_status_created";
      table = "outbox_events";
      columns = "status" ∷ "created_at" ∷ [];
    })
    ∷ []

-- `downgrade`
abbrev pub downgrade : List Operation
downgrade =
    drop_table "outbox_events"
    ∷ drop_table "idempotency_keys"
    ∷ drop_table "deliveries"
    ∷ drop_table "events"
    ∷ drop_table "endpoint_subscriptions"
    ∷ drop_table "endpoints"
    ∷ drop_table "api_keys"
    ∷ drop_table "tenants"
    ∷ []
