-- ===== src/Worker/DeliveryEngine/Resolving.antt =====
-- Which endpoints a payload reaches.
use eventmesh.Base.{
  ℕ, String, ◌≡◌, ◌↔◌, subst, Bool, true, ◌&&◌, none, ◌==◌, ==_iff, str_eq, eq_iff, Has, Has-map,
  Has-map_of, Has-any, any-Has, Has-select, Has-select_of, arith, and_true_left, and_true_right,
}
use eventmesh.Database.{Endpoint, EndpointSubscription, Tables}
use eventmesh.Worker.DeliveryEngine.Resolve.{is_active, is_subscribed, resolve_endpoints}

-- The endpoint is of the tenant, active and subscribed to the type of event.
pub record Subscribes (tenant_id : ℕ) (event_type : String) (db : Tables) (ep : Endpoint)
    : Type 0 where
  pub stored : Has ep db.endpoints
  pub owned : ep.tenant_id ≡ tenant_id
  pub active : ep.status ≡ "active"
  pub subscription : EndpointSubscription
  pub recorded : Has subscription db.subscriptions
  pub endpoint : subscription.endpoint_id ≡ ep.id
  pub event : subscription.event_type ≡ event_type

is_subscribed-Subscribes :
    (tenant_id : ℕ) (event_type : String) (db : Tables) (ep : Endpoint)
    → Has ep db.endpoints
    → is_subscribed tenant_id event_type db ep ≡ true
    → Subscribes tenant_id event_type db ep
is_subscribed-Subscribes tenant_id event_type db ep m h =
    let (s, n, t) =
      Has-any
        (λ (s : EndpointSubscription). s.endpoint_id == ep.id && str_eq s.event_type event_type)
        db.subscriptions (and_true_right (ep.tenant_id == tenant_id && is_active ep) _ h) in
    record {
      stored = m;
      owned =
          (==_iff ep.tenant_id tenant_id).0
            (and_true_left (ep.tenant_id == tenant_id) (is_active ep) (and_true_left _ _ h));
      active =
          (eq_iff ep.status "active").0
            (and_true_right (ep.tenant_id == tenant_id) (is_active ep) (and_true_left _ _ h));
      subscription = s;
      recorded = n;
      endpoint = (==_iff s.endpoint_id ep.id).0 (and_true_left _ _ t);
      event = (eq_iff s.event_type event_type).0 (and_true_right _ _ t);
    }

both_true : (a b : Bool) → a ≡ true → b ≡ true → a && b ≡ true
both_true a b p q = ground arith

all_true : (a b c : Bool) → a ≡ true → b ≡ true → c ≡ true → a && b && c ≡ true
all_true a b c p q r = ground arith

Subscribes-is_subscribed :
    (tenant_id : ℕ) (event_type : String) (db : Tables) (ep : Endpoint)
    → Subscribes tenant_id event_type db ep
    → is_subscribed tenant_id event_type db ep ≡ true
Subscribes-is_subscribed tenant_id event_type db ep s =
    all_true (ep.tenant_id == tenant_id) (is_active ep) _
      ((==_iff ep.tenant_id tenant_id).1 s.owned) ((eq_iff ep.status "active").1 s.active)
      (any-Has _ db.subscriptions s.subscription s.recorded (
        both_true _ _ ((==_iff s.subscription.endpoint_id ep.id).1 s.endpoint)
          ((eq_iff s.subscription.event_type event_type).1 s.event)))

-- A payload that names no endpoint reaches exactly the endpoints that belong to its tenant, are
-- active, and have a subscription to its type of event.
pub resolve_endpoints_iff :
    (tenant_id : ℕ) (event_type : String) (db : Tables) (endpoint_id : ℕ)
    → Has endpoint_id (resolve_endpoints tenant_id event_type none db)
      ↔ ((ep : Endpoint) × Subscribes tenant_id event_type db ep × (ep.id ≡ endpoint_id))
unfolding resolve_endpoints
resolve_endpoints_iff tenant_id event_type db endpoint_id = (
  λ m.
      let (ep, n, e) = Has-map (λ (ep : Endpoint). ep.id) endpoint_id _ m in
      let (stored, t) = Has-select ep (is_subscribed tenant_id event_type db) db.endpoints n in
      (ep, is_subscribed-Subscribes tenant_id event_type db ep stored t, e),
  λ found.
      let (ep, s, e) = found in
      subst (λ i. Has i (resolve_endpoints tenant_id event_type none db)) e
        (Has-map_of (λ (ep : Endpoint). ep.id) ep _
          (Has-select_of ep (is_subscribed tenant_id event_type db) db.endpoints s.stored
            (Subscribes-is_subscribed tenant_id event_type db ep s))),
)
