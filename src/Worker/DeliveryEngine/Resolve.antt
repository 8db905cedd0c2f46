-- ===== src/Worker/DeliveryEngine/Resolve.antt =====
-- apps/worker/eventmesh_worker/delivery_engine.py: the endpoints of a payload.
use eventmesh.Base.{
  ℕ, String, Bool, ◌&&◌, Option, none, some, List, [], ◌∷◌, map, ◌==◌, str_eq, if◌then◌else◌, any,
  select,
}
use eventmesh.Common.Enums.{EndpointStatus, endpoint_status_value}
use eventmesh.Database.{Endpoint, EndpointSubscription, Tables, get_endpoint}

-- `endpoint.status == EndpointStatus.ACTIVE.value`
abbrev pub is_active : Endpoint → Bool
is_active ep = str_eq ep.status (endpoint_status_value EndpointStatus.active)

-- The test of the query that joins endpoints and subscriptions. The primary key of a subscription
-- is the pair, so that the join has at most one row for an endpoint.
abbrev pub is_subscribed : ℕ → String → Tables → Endpoint → Bool
is_subscribed tenant_id event_type db ep =
    ep.tenant_id == tenant_id
    && is_active ep
    && any (λ (s : EndpointSubscription). s.endpoint_id == ep.id && str_eq s.event_type event_type)
        db.subscriptions

-- `_resolve_endpoints`
unfoldable pub resolve_endpoints : ℕ → String → Option ℕ → Tables → List ℕ
resolve_endpoints tenant_id event_type none db =
    map (λ (ep : Endpoint). ep.id) (select (is_subscribed tenant_id event_type db) db.endpoints)
resolve_endpoints tenant_id event_type (some target) db = elim (get_endpoint target db) [
  | none ↦ []
  | some ep ↦ if is_active ep then ep.id ∷ [] else []
]
