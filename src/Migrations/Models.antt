-- ===== src/Migrations/Models.antt =====
-- packages/database/eventmesh_database/models.py: the tables and the indexes that the classes declare
-- to SQLAlchemy. A `Mapped[datetime]` without a type of its own is `DateTime()`, without a time zone;
-- a default of Python's is no default of the server.
use eventmesh.Base.{List, [], ◌∷◌, String, false}
use eventmesh.Migrations.{
  uuid, text, integer, big_integer, boolean, jsonb, string, date_time, Table, Index,
}
use eventmesh.Migrations.Columns.{required, optional, primary, unique, reference, stamped}
use Prim.Native.String.{◌++◌ as text_append}

-- `Tenant`
abbrev pub tenant_table : Table
tenant_table = record {
  name = "tenants";
  columns =
      primary (required "id" uuid)
      ∷ required "name" (string 255)
      ∷ required "plan" (string 50)
      ∷ required "status" (string 30)
      ∷ stamped false "created_at"
      ∷ stamped false "updated_at"
      ∷ [];
  unique_constraints = [];
}

-- `ApiKey`
abbrev pub api_key_table : Table
api_key_table = record {
  name = "api_keys";
  columns =
      primary (required "id" uuid)
      ∷ reference "tenant_id" "tenants"
      ∷ required "key_prefix" (string 32)
      ∷ unique (required "key_hash" (string 128))
      ∷ required "name" (string 255)
      ∷ required "role" (string 30)
      ∷ optional "last_used_at" (date_time false)
      ∷ stamped false "created_at"
      ∷ optional "revoked_at" (date_time false)
      ∷ [];
  unique_constraints = [];
}

-- `Endpoint`
abbrev pub endpoint_table : Table
endpoint_table = record {
  name = "endpoints";
  columns =
      primary (required "id" uuid)
      ∷ reference "tenant_id" "tenants"
      ∷ required "url" text
      ∷ optional "description" text
      ∷ required "secret_encrypted" text
      ∷ required "status" (string 30)
      ∷ required "timeout_ms" integer
      ∷ required "max_retries" integer
      ∷ required "circuit_state" (string 20)
      ∷ stamped false "created_at"
      ∷ stamped false "updated_at"
      ∷ [];
  unique_constraints = [];
}

-- `EndpointSubscription`
abbrev pub endpoint_subscription_table : Table
endpoint_subscription_table = record {
  name = "endpoint_subscriptions";
  columns =
      primary (reference "endpoint_id" "endpoints")
      ∷ primary (required "event_type" (string 255))
      ∷ [];
  unique_constraints = [];
}

-- `Event`
abbrev pub event_table : Table
event_table = record {
  name = "events";
  columns =
      primary (required "id" uuid)
      ∷ reference "tenant_id" "tenants"
      ∷ required "event_type" (string 255)
      ∷ optional "source" (string 255)
      ∷ optional "entity_id" (string 255)
      ∷ optional "sequence_number" big_integer
      ∷ required "payload" jsonb
      ∷ required "status" (string 50)
      ∷ stamped false "created_at"
      ∷ stamped false "updated_at"
      ∷ [];
  unique_constraints = [];
}

-- `Delivery`
abbrev pub delivery_table : Table
delivery_table = record {
  name = "deliveries";
  columns =
      primary (required "id" uuid)
      ∷ reference "event_id" "events"
      ∷ reference "endpoint_id" "endpoints"
      ∷ required "attempt_number" integer
      ∷ required "status" (string 50)
      ∷ optional "http_status" integer
      ∷ optional "latency_ms" integer
      ∷ optional "error_code" (string 100)
      ∷ optional "error_message" text
      ∷ optional "started_at" (date_time false)
      ∷ optional "completed_at" (date_time false)
      ∷ optional "next_retry_at" (date_time false)
      ∷ required "is_replay" boolean
      ∷ stamped false "created_at"
      ∷ [];
  unique_constraints = [];
}

-- `IdempotencyKey`
abbrev pub idempotency_key_table : Table
idempotency_key_table = record {
  name = "idempotency_keys";
  columns =
      primary (required "id" uuid)
      ∷ reference "tenant_id" "tenants"
      ∷ required "key" (string 255)
      ∷ reference "event_id" "events"
      ∷ stamped false "created_at"
      ∷ required "expires_at" (date_time false)
      ∷ [];
  unique_constraints = ("uq_idempotency_tenant_key", "tenant_id" ∷ "key" ∷ []) ∷ [];
}

-- `OutboxEvent`
abbrev pub outbox_event_table : Table
outbox_event_table = record {
  name = "outbox_events";
  columns =
      primary (required "id" uuid)
      ∷ required "aggregate_type" (string 100)
      ∷ required "aggregate_id" uuid
      ∷ reference "event_id" "events"
      ∷ required "payload" jsonb
      ∷ required "status" (string 30)
      ∷ required "attempts" integer
      ∷ stamped false "created_at"
      ∷ optional "published_at" (date_time false)
      ∷ [];
  unique_constraints = [];
}

abbrev pub model_tables : List Table
model_tables =
    tenant_table ∷ api_key_table ∷ endpoint_table ∷ endpoint_subscription_table ∷ event_table
    ∷ delivery_table ∷ idempotency_key_table ∷ outbox_event_table ∷ []

-- `index=True` on a column, by SQLAlchemy's convention for the name
abbrev pub column_index : String → String → Index
column_index table column = record {
  name = text_append "ix_" (text_append table (text_append "_" column));
  table = table;
  columns = column ∷ [];
}

-- The columns with `index=True`, then `__table_args__`, class by class
abbrev pub model_indexes : List Index
model_indexes =
    column_index "api_keys" "tenant_id"
    ∷ column_index "api_keys" "key_prefix"
    ∷ column_index "endpoints" "tenant_id"
    ∷ (record {
      name = "ix_endpoints_tenant_status";
      table = "endpoints";
      columns = "tenant_id" ∷ "status" ∷ [];
    })
    ∷ (record { name = "ix_events_tenant_id"; table = "events"; columns = "tenant_id" ∷ [] })
    ∷ (record {
      name = "ix_events_tenant_created";
      table = "events";
      columns = "tenant_id" ∷ "created_at" ∷ [];
    })
    ∷ (record {
      name = "ix_events_tenant_type";
      table = "events";
      columns = "tenant_id" ∷ "event_type" ∷ [];
    })
    ∷ (record {
      name = "ix_events_entity_seq";
      table = "events";
      columns = "entity_id" ∷ "sequence_number" ∷ [];
    })
    ∷ (record { name = "ix_events_status"; table = "events"; columns = "status" ∷ [] })
    ∷ (record { name = "ix_deliveries_event_id"; table = "deliveries"; columns = "event_id" ∷ [] })
    ∷ (record {
      name = "ix_deliveries_endpoint_id";
      table = "deliveries";
      columns = "endpoint_id" ∷ [];
    })
    ∷ (record { name = "ix_deliveries_status"; table = "deliveries"; columns = "status" ∷ [] })
    ∷ (record {
      name = "ix_deliveries_next_retry_at";
      table = "deliveries";
      columns = "next_retry_at" ∷ [];
    })
    ∷ (record {
      name = "ix_outbox_status_created";
      table = "outbox_events";
      columns = "status" ∷ "created_at" ∷ [];
    })
    ∷ []
