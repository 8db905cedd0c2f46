-- ===== src/Api/Endpoints/Requests.antt =====
-- apps/api/eventmesh_api/routers/endpoints.py: the changes and the deletion of an endpoint, and the
-- requests that write endpoints together.
use eventmesh.Base.{
  ℕ, String, Bool, false, not, Option, none, some, List, ◌==◌, any, select, if◌then◌else◌, Result,
  ok, err,
}
use eventmesh.Common.Ssrf.{Network, SsrfError, validate_webhook_url}
use eventmesh.Database.{
  Endpoint, EndpointSubscription, Delivery, Tables, get_endpoint, set_endpoint,
}
use eventmesh.Api.Auth.{AuthContext}
use eventmesh.Api.Schemas.{EndpointCreateRequest, EndpointUpdateRequest, EndpointDetail}
use eventmesh.Api.Endpoints.{
  EndpointError, Drawn, to_detail, has_duplicate, subscribe, unsubscribe, owned_endpoint,
  create_endpoint,
}

-- `if body.x is not None: ep.x = body.x`
abbrev pub changed {ℓ} : {A : Type ℓ} → Option A → A → A
changed none old = old
changed (some new) old = new

abbrev pub change_description : Option String → Option String → Option String
change_description none old = old
change_description (some new) old = some new

-- The row with the fields of the request.
abbrev pub with_fields : EndpointUpdateRequest → Endpoint → Endpoint
with_fields body ep = record ep {
  url = changed body.url ep.url;
  description = change_description body.description ep.description;
  status = changed body.status ep.status;
  timeout_ms = changed body.timeout_ms ep.timeout_ms;
  max_retries = changed body.max_retries ep.max_retries;
}

-- The check of a URL, if there is one.
abbrev pub check_url : ℕ → Network → Option String → Result SsrfError (Unit {0})
check_url max_length net none = ok tt
check_url max_length net (some url) = validate_webhook_url net url max_length

abbrev pub replace_events :
    ℕ → Option (List String) → List EndpointSubscription → List EndpointSubscription
replace_events endpoint_id none subscriptions = subscriptions
replace_events endpoint_id (some events) subscriptions =
    subscribe endpoint_id events (unsubscribe endpoint_id subscriptions)

abbrev pub has_duplicates : Option (List String) → Bool
has_duplicates none = false
has_duplicates (some events) = has_duplicate events

-- The endpoint and its subscriptions, as the request wants them.
abbrev pub apply_update : EndpointUpdateRequest → Endpoint → Tables → Tables
apply_update body ep db = record (set_endpoint ep.id (with_fields body) db) {
  subscriptions = replace_events ep.id body.events db.subscriptions;
}

-- `update_endpoint`, by the endpoint that was loaded and by the answer of the URL's check
unfoldable pub update_loaded :
    Result EndpointError Endpoint
    → Result SsrfError (Unit {0})
    → EndpointUpdateRequest
    → Tables
    → Result EndpointError EndpointDetail × Tables
update_loaded (err e) checked body db = (err e, db)
update_loaded (ok ep) (err e) body db = (err (EndpointError.invalid_url e), db)
update_loaded (ok ep) (ok _) body db =
    let db' = apply_update body ep db in
    if has_duplicates body.events
    then (err EndpointError.integrity_error, db)
    else (ok (to_detail db' (with_fields body ep)), db')

unfoldable pub update_endpoint :
    ℕ
    → Network
    → AuthContext
    → ℕ
    → EndpointUpdateRequest
    → Tables
    → Result EndpointError EndpointDetail × Tables
update_endpoint max_length net ctx endpoint_id body db =
    update_loaded (owned_endpoint ctx (get_endpoint endpoint_id db))
      (check_url max_length net body.url) body db

-- The endpoint and, by the cascade of the relationship, its subscriptions.
abbrev pub remove_endpoint : ℕ → Tables → Tables
remove_endpoint endpoint_id db = record db {
  endpoints = select (λ (ep : Endpoint). not (ep.id == endpoint_id)) db.endpoints;
  subscriptions = unsubscribe endpoint_id db.subscriptions;
}

-- `delete_endpoint`, by the endpoint that was loaded; a delivery's foreign key has no cascade.
unfoldable pub delete_loaded :
    Result EndpointError Endpoint → Tables → Result EndpointError (Unit {0}) × Tables
delete_loaded (err e) db = (err e, db)
delete_loaded (ok ep) db =
    if any (λ (d : Delivery). d.endpoint_id == ep.id) db.deliveries
    then (err EndpointError.integrity_error, db)
    else (ok tt, remove_endpoint ep.id db)

unfoldable pub delete_endpoint : AuthContext → ℕ → Tables → Result EndpointError (Unit {0}) × Tables
delete_endpoint ctx endpoint_id db =
    delete_loaded (owned_endpoint ctx (get_endpoint endpoint_id db)) db

-- A request that writes endpoints, with what it draws and the network at its moment.
pub data Operation : Type 0 where
  create : Network → EndpointCreateRequest → Drawn → Operation
  change : Network → ℕ → EndpointUpdateRequest → Operation
  delete : ℕ → Operation

-- The database after a request of a client.
unfoldable pub perform : ℕ → (List ℕ → String) → AuthContext → Operation → Tables → Tables
perform max_length encrypt_secret ctx (Operation.create net body drawn) db =
    (create_endpoint max_length encrypt_secret net ctx body drawn db).1
perform max_length encrypt_secret ctx (Operation.change net endpoint_id body) db =
    (update_endpoint max_length net ctx endpoint_id body db).1
perform max_length encrypt_secret ctx (Operation.delete endpoint_id) db =
    (delete_endpoint ctx endpoint_id db).1
