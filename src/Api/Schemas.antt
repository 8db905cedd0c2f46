-- ===== src/Api/Schemas.antt =====
-- apps/api/eventmesh_api/schemas.py: the bodies and the answers of the handlers, and the validation of
-- the body of a new event.
use Prim.Native.String.{count}
use eventmesh.Base.{
  ℕ, String, Bool, ◌&&◌, ◌||◌, Option, List, leb, ltb, ◌==◌, all, codes, Result, ok, raise_if, ◌>>◌,
}
use eventmesh.Base.Int.{ℤ}
use eventmesh.Common.Enums.{EventStatus, DeliveryStatus, CircuitState}
use eventmesh.Database.{Event, Delivery, ErrorMessage}

pub record EndpointCreateRequest : Type 0 where
  pub url : String
  pub description : Option String
  pub events : List String
  pub timeout_ms : ℤ
  pub max_retries : ℤ

-- A field that the request leaves out is none.
pub record EndpointUpdateRequest : Type 0 where
  pub url : Option String
  pub description : Option String
  pub events : Option (List String)
  pub status : Option String
  pub timeout_ms : Option ℤ
  pub max_retries : Option ℤ

pub record EndpointDetail : Type 0 where
  pub id : ℕ
  pub url : String
  pub description : Option String
  pub status : String
  pub circuit_state : CircuitState
  pub timeout_ms : ℤ
  pub max_retries : ℤ
  pub events : List String
  pub created_at : ℕ

pub record EndpointCreateResponse : Type 0 where
  pub detail : EndpointDetail
  pub signing_secret : List ℕ

-- `EventCreateRequest`, before its validators; a `data` left out is none.
pub record EventBody : Type 0 where
  pub event_type : String
  pub content : Option String
  pub source : Option String
  pub entity_id : Option String
  pub sequence : Option ℤ

-- The errors that pydantic reports on `type`
pub data TypeIssue : Type 0 where
  string_too_long event_type_required : TypeIssue

-- The code points that `str.strip` takes for whitespace.
abbrev pub is_white : ℕ → Bool
is_white c =
    (leb 9 c && leb c 13)
    || (leb 28 c && leb c 32)
    || c == 133
    || c == 160
    || c == 5760
    || (leb 8192 c && leb c 8202)
    || c == 8232
    || c == 8233
    || c == 8239
    || c == 8287
    || c == 12288

-- `not v.strip()`: nothing is left if every character is whitespace.
abbrev pub is_blank : String → Bool
is_blank v = all is_white (codes v)

-- `type_not_empty`
abbrev pub type_not_empty : String → Result TypeIssue String
type_not_empty v = raise_if (is_blank v) TypeIssue.event_type_required >> ok v

-- `Field(..., max_length=255)`, then `type_not_empty`
abbrev pub validate_type : String → Result TypeIssue String
validate_type v = raise_if (ltb 255 (count v)) TypeIssue.string_too_long >> type_not_empty v

pub record EventDetail : Type 0 where
  pub id : ℕ
  pub tenant_id : ℕ
  pub event_type : String
  pub payload : String
  pub status : EventStatus
  pub entity_id : Option String
  pub sequence_number : Option ℤ
  pub created_at : ℕ
  pub updated_at : ℕ

pub record DeliveryDetail : Type 0 where
  pub id : ℕ
  pub event_id : ℕ
  pub endpoint_id : ℕ
  pub attempt_number : ℕ
  pub status : DeliveryStatus
  pub http_status : Option ℕ
  pub latency_ms : Option ℕ
  pub error_message : Option ErrorMessage
  pub next_retry_at : Option ℕ
  pub created_at : ℕ

-- `EventDetail.model_validate`; the column `updated_at`, which the server sets, comes from outside.
abbrev pub event_detail : (updated_at : ℕ) → Event → EventDetail
event_detail updated_at e = record {
  id = e.id;
  tenant_id = e.tenant_id;
  event_type = e.event_type;
  payload = e.payload;
  status = e.status;
  entity_id = e.entity_id;
  sequence_number = e.sequence_number;
  created_at = e.created_at;
  updated_at = updated_at;
}

-- `DeliveryDetail.model_validate`
abbrev pub delivery_detail : Delivery → DeliveryDetail
delivery_detail d = record {
  id = d.id;
  event_id = d.event_id;
  endpoint_id = d.endpoint_id;
  attempt_number = d.attempt_number;
  status = d.status;
  http_status = d.http_status;
  latency_ms = d.latency_ms;
  error_message = d.error_message;
  next_retry_at = d.next_retry_at;
  created_at = d.created_at;
}
