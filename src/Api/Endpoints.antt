-- ===== src/Api/Endpoints.antt =====
-- apps/api/eventmesh_api/routers/endpoints.py: a handler, run with its session on its own, as a
-- function of the database. The text of a URL is that of pydantic's `HttpUrl`; the encryption of
-- secrets is a parameter.
pub mod Requests
pub mod Subscriptions
pub mod Change
pub mod Urls
pub mod Isolation
pub mod Reading
mod Examples
use eventmesh.Base.{
  ℕ, String, Bool, true, false, not, ◌&&◌, ◌||◌, Option, none, some, List, [], ◌∷◌, ◌++◌, map, ◌==◌,
  str_eq, any, select, codes, if◌then◌else◌, Result, ok, err,
}
use eventmesh.Base.Int.{ℤ}
use eventmesh.Common.Enums.{CircuitState, EndpointStatus, endpoint_status_value}
use eventmesh.Common.Ssrf.{Network, SsrfError, validate_webhook_url}
use eventmesh.Database.{
  Endpoint, EndpointSubscription, Delivery, Tables, get_endpoint, set_endpoint,
}
use eventmesh.Api.Auth.{AuthContext}
use eventmesh.Api.Schemas.{
  EndpointCreateRequest, EndpointUpdateRequest, EndpointDetail, EndpointCreateResponse,
}

-- The exceptions that end a handler; the last is the database's, for a key that is not unique or
-- one that is still referred to.
pub data EndpointError : Type 0 where
  invalid_url : SsrfError → EndpointError
  not_found integrity_error : EndpointError

-- What one call of `create_endpoint` draws: the id, the clock and `secrets.token_urlsafe(32)`.
pub record Drawn : Type 0 where
  pub id : ℕ
  pub now : ℕ
  pub token : List ℕ

-- The event types of the endpoint's subscriptions.
abbrev pub event_types : ℕ → List EndpointSubscription → List String
event_types endpoint_id subscriptions =
    map (λ (s : EndpointSubscription). s.event_type)
      (select (λ (s : EndpointSubscription). s.endpoint_id == endpoint_id) subscriptions)

-- `_to_detail`
unfoldable pub to_detail : Tables → Endpoint → EndpointDetail
to_detail db ep = record {
  id = ep.id;
  url = ep.url;
  description = ep.description;
  status = ep.status;
  circuit_state = ep.circuit_state;
  timeout_ms = ep.timeout_ms;
  max_retries = ep.max_retries;
  events = event_types ep.id db.subscriptions;
  created_at = ep.created_at;
}

-- Two subscriptions of one endpoint to one event type have the same primary key.
abbrev pub has_duplicate : List String → Bool
has_duplicate [] = false
has_duplicate (t ∷ ts) = any (λ u. str_eq t u) ts || has_duplicate ts

-- `for event_type in body.events: session.add(EndpointSubscription(…))`
abbrev pub subscribe : ℕ → List String → List EndpointSubscription → List EndpointSubscription
subscribe endpoint_id events subscriptions =
    subscriptions ++ map (λ t. record { endpoint_id = endpoint_id; event_type = t }) events

-- The subscriptions of the other endpoints.
abbrev pub unsubscribe : ℕ → List EndpointSubscription → List EndpointSubscription
unsubscribe endpoint_id subscriptions =
    select (λ (s : EndpointSubscription). not (s.endpoint_id == endpoint_id)) subscriptions

abbrev pub raw_secret : Drawn → List ℕ
raw_secret drawn = codes "whsec_" ++ drawn.token

-- `Endpoint(tenant_id=…, …)`, with its defaults
abbrev pub new_endpoint : (List ℕ → String) → AuthContext → EndpointCreateRequest → Drawn → Endpoint
new_endpoint encrypt_secret ctx body drawn = record {
  id = drawn.id;
  tenant_id = ctx.tenant_id;
  url = body.url;
  description = body.description;
  secret_encrypted = encrypt_secret (raw_secret drawn);
  status = endpoint_status_value EndpointStatus.active;
  timeout_ms = body.timeout_ms;
  max_retries = body.max_retries;
  circuit_state = CircuitState.closed;
  created_at = drawn.now;
}

-- The endpoint and its subscriptions, stored.
abbrev pub store_endpoint : Endpoint → List String → Tables → Tables
store_endpoint ep events db = record db {
  endpoints = db.endpoints ++ ep ∷ [];
  subscriptions = subscribe ep.id events db.subscriptions;
}

-- `create_endpoint`, by the answer of the URL's check
unfoldable pub create_checked :
    (List ℕ → String)
    → Result SsrfError (Unit {0})
    → AuthContext
    → EndpointCreateRequest
    → Drawn
    → Tables
    → Result EndpointError EndpointCreateResponse × Tables
create_checked encrypt_secret (err e) ctx body drawn db = (err (EndpointError.invalid_url e), db)
create_checked encrypt_secret (ok _) ctx body drawn db =
    let ep = new_endpoint encrypt_secret ctx body drawn in
    let db' = store_endpoint ep body.events db in
    if has_duplicate body.events
    then (err EndpointError.integrity_error, db)
    else (ok (record { detail = to_detail db' ep; signing_secret = raw_secret drawn }), db')

unfoldable pub create_endpoint :
    ℕ
    → (List ℕ → String)
    → Network
    → AuthContext
    → EndpointCreateRequest
    → Drawn
    → Tables
    → Result EndpointError EndpointCreateResponse × Tables
create_endpoint max_length encrypt_secret net ctx body drawn db =
    create_checked encrypt_secret (validate_webhook_url net body.url max_length) ctx body drawn db

-- `if ep is None or ep.tenant_id != ctx.tenant_id: raise 404`
abbrev pub owned_endpoint : AuthContext → Option Endpoint → Result EndpointError Endpoint
owned_endpoint ctx none = err EndpointError.not_found
owned_endpoint ctx (some ep) =
    if ep.tenant_id == ctx.tenant_id then ok ep else err EndpointError.not_found

abbrev pub detail_of : Tables → Result EndpointError Endpoint → Result EndpointError EndpointDetail
detail_of db (err e) = err e
detail_of db (ok ep) = ok (to_detail db ep)

-- `get_endpoint` of the router
unfoldable pub read_endpoint : AuthContext → ℕ → Tables → Result EndpointError EndpointDetail
read_endpoint ctx endpoint_id db = detail_of db (owned_endpoint ctx (get_endpoint endpoint_id db))

-- `list_endpoints`
unfoldable pub list_endpoints : AuthContext → Tables → List EndpointDetail
list_endpoints ctx db =
    map (to_detail db) (select (λ (ep : Endpoint). ep.tenant_id == ctx.tenant_id) db.endpoints)
