-- ===== src/Api/Endpoints/Examples.antt =====
-- A client's requests on a small database.
use eventmesh.Base.{ℕ, ◌≡◌, refl, none, some, [], ◌∷◌, All, inl, ok, codes, String, List, arith}
use eventmesh.Base.Int.{pos}
use eventmesh.Common.Enums.{CircuitState}
use eventmesh.Common.Ssrf.{
  validate_webhook_url, check_hostname, check_addresses, reject_any_unsafe, reject_if_unsafe,
  is_internal,
}
use eventmesh.Common.Ssrf.Sample.{network, hook_url}
use eventmesh.Database.{Endpoint, Tables}
use eventmesh.Database.Sample.{tables, hook}
use eventmesh.Api.Auth.{AuthContext}
use eventmesh.Api.Schemas.{EndpointCreateRequest, EndpointUpdateRequest, EndpointCreateResponse}
use eventmesh.Api.Endpoints.{Drawn, to_detail, create_checked, create_endpoint}
use eventmesh.Api.Endpoints.Requests.{Operation, delete_endpoint, perform}
use eventmesh.Api.Endpoints.Urls.{Request, Vetted, serve, serve-Vetted}
use eventmesh.Api.Endpoints.Isolation.{Untouched, perform-Untouched}
use eventmesh.Api.Endpoints.Reading.{
  Created, Deleted, create_endpoint-Created, delete_endpoint-Deleted,
}

abbrev client : AuthContext
client = record { tenant_id = 1; api_key_id = 2; plan = "free" }

abbrev stranger : AuthContext
stranger = record { tenant_id = 4; api_key_id = 6; plan = "free" }

abbrev hide : List ℕ → String
hide secret = "hidden"

abbrev order : EndpointCreateRequest
order = record {
  url = hook_url;
  description = none;
  events = "order.created" ∷ "order.paid" ∷ [];
  timeout_ms = pos 10000;
  max_retries = pos 6;
}

abbrev rename : EndpointUpdateRequest
rename = record {
  url = some hook_url;
  description = some "orders";
  events = some [];
  status = none;
  timeout_ms = none;
  max_retries = none;
}

abbrev drawn : Drawn
drawn = record { id = 11; now = 9000; token = codes "abc" }

abbrev history : List Request
history =
    (client, Operation.create network order drawn)
    ∷ (stranger, Operation.delete 11)
    ∷ (client, Operation.change network 11 rename)
    ∷ []

abbrev empty : Tables
empty = record tables { endpoints = []; subscriptions = []; deliveries = [] }

serve-Vetted_example :
    All (λ (ep : Endpoint). Vetted 2048 history ep.url) (serve 2048 hide history empty).endpoints
serve-Vetted_example = serve-Vetted 2048 hide history empty refl

perform-Untouched_example :
    Untouched hook tables (perform 2048 hide stranger (Operation.create network order drawn) tables)
perform-Untouched_example =
    perform-Untouched 2048 hide stranger (Operation.create network order drawn) tables hook (tt, tt)
      (omega arith, tt) (inl refl) (omega arith)

abbrev answer : EndpointCreateResponse
answer = record {
  detail = record {
    id = 11;
    url = hook_url;
    description = none;
    status = "active";
    circuit_state = CircuitState.closed;
    timeout_ms = pos 10000;
    max_retries = pos 6;
    events = "order.created" ∷ "order.paid" ∷ [];
    created_at = 9000;
  };
  signing_secret = codes "whsec_abc";
}

abbrev after : Tables
after = (create_endpoint 2048 hide network client order drawn tables).1

created : create_endpoint 2048 hide network client order drawn tables ≡ (ok answer, after)
unfolding create_endpoint create_checked to_detail validate_webhook_url check_hostname
    check_addresses reject_any_unsafe reject_if_unsafe is_internal
created = refl

create_endpoint-Created_example : Created client order drawn answer after
create_endpoint-Created_example =
    create_endpoint-Created 2048 hide network client order drawn tables answer after
      (omega arith, tt) refl created

delete_endpoint-Deleted_example :
    Deleted client 3 tables (delete_endpoint client 3 tables).0 (delete_endpoint client 3 tables).1
delete_endpoint-Deleted_example = delete_endpoint-Deleted client 3 tables
