-- ===== src/Api/Endpoints/Reading.antt =====
-- What a client reads after it has created or deleted an endpoint.
use eventmesh.Worker.DeliveryEngine.Resolve.{resolve_endpoints}
use eventmesh.Worker.DeliveryEngine.Resolving.{resolve_endpoints_iff}
use eventmesh.Base.{
  Has, Has-map_of, Has-select_of, Has-append_right, ℕ, String, ◌≡◌, ◌≢◌, refl, sym, ap, ◌∙◌,
  Bool-cases, true, false, not, Option, none, some, List, [], ◌∷◌, ◌++◌, ◌==◌, ==_iff, All, any,
  find, select, Has-find, inl, inr, if_true, if_false, Result, ok, err,
}
use eventmesh.Common.Ssrf.{Network, SsrfError, validate_webhook_url}
use eventmesh.Database.{Endpoint, Delivery, Tables, get_endpoint}
use eventmesh.Api.Auth.{AuthContext}
use eventmesh.Api.Schemas.{EndpointCreateRequest, EndpointCreateResponse}
use eventmesh.Api.Endpoints.{
  EndpointError, Drawn, event_types, has_duplicate, raw_secret, new_endpoint, store_endpoint,
  create_checked, create_endpoint, owned_endpoint, read_endpoint, list_endpoints, to_detail,
}
use eventmesh.Api.Endpoints.Requests.{delete_loaded, delete_endpoint}
use eventmesh.Api.Endpoints.Subscriptions.{not_same, event_types-subscribe, event_types-unsubscribe}
use eventmesh.Api.Endpoints.Change.{Owns, owned_endpoint-Owns}

find_fresh :
    (id : ℕ) (xs : List Endpoint) (ep : Endpoint)
    → All (λ (x : Endpoint). x.id ≢ id) xs
    → ep.id ≡ id
    → find (λ (x : Endpoint). x.id == id) (xs ++ ep ∷ []) ≡ some ep
find_fresh id [] ep h e = rw ((==_iff ep.id id).1 e) refl
find_fresh id (x ∷ xs) ep h e = rw (not_same x.id id h.0) (find_fresh id xs ep h.1 e)

-- What the answer to a creation says of it, and what readers find afterwards.
pub record Created (ctx : AuthContext) (body : EndpointCreateRequest) (drawn : Drawn)
    (response : EndpointCreateResponse) (db' : Tables) : Type 0 where
  pub url : response.detail.url ≡ body.url
  pub events : response.detail.events ≡ body.events
  pub own : read_endpoint ctx drawn.id db' ≡ ok response.detail
  pub others :
      (other : AuthContext)
      → other.tenant_id ≢ ctx.tenant_id
      → read_endpoint other drawn.id db' ≡ err EndpointError.not_found
  pub listed : Has response.detail (list_endpoints ctx db')
  pub reached :
      (event_type : String)
      → Has event_type body.events
      → Has drawn.id (resolve_endpoints ctx.tenant_id event_type none db')

module _ (encrypt_secret : List ℕ → String) (ctx : AuthContext) (body : EndpointCreateRequest)
    (drawn : Drawn) (db : Tables) (fresh : All (λ (ep : Endpoint). ep.id ≢ drawn.id) db.endpoints)
    (unsubscribed : event_types drawn.id db.subscriptions ≡ []) where
  abbrev stored_tables : Tables
  stored_tables = store_endpoint (new_endpoint encrypt_secret ctx body drawn) body.events db

  abbrev stored_answer : EndpointCreateResponse
  stored_answer = record {
    detail = to_detail stored_tables (new_endpoint encrypt_secret ctx body drawn);
    signing_secret = raw_secret drawn;
  }

  stored-Created : Created ctx body drawn stored_answer stored_tables
  unfolding read_endpoint to_detail list_endpoints
  stored-Created =
      let ep = new_endpoint encrypt_secret ctx body drawn in
      let found = find_fresh drawn.id db.endpoints ep fresh refl in
      let last : Has ep stored_tables.endpoints =
        Has-append_right ep db.endpoints (ep ∷ []) (inl refl) in
      record {
        url = refl;
        events =
            event_types-subscribe drawn.id body.events db.subscriptions
            ∙ ap (λ t. t ++ body.events) unsubscribed;
        own = rw (found, (==_iff ctx.tenant_id ctx.tenant_id).1 refl) refl;
        others =
            λ other h. rw (found, not_same ctx.tenant_id other.tenant_id (λ q. h (sym q))) refl;
        listed = Has-map_of (to_detail stored_tables) ep _ (
            Has-select_of ep (λ (e : Endpoint). e.tenant_id == ctx.tenant_id)
              stored_tables.endpoints last ((==_iff ctx.tenant_id ctx.tenant_id).1 refl));
        reached = λ event_type m.
            (resolve_endpoints_iff ctx.tenant_id event_type stored_tables drawn.id).1 (
              ep,
              record {
                stored = last;
                owned = refl;
                active = refl;
                subscription = record { endpoint_id = drawn.id; event_type = event_type };
                recorded = Has-append_right _ db.subscriptions _ (
                    Has-map_of (λ t. record { endpoint_id = drawn.id; event_type = t }) event_type
                      body.events m);
                endpoint = refl;
                event = refl;
              },
              refl,
            );
      }

  create_checked-Created :
      (checked : Result SsrfError (Unit {0})) (response : EndpointCreateResponse) (db' : Tables)
      → create_checked encrypt_secret checked ctx body drawn db ≡ (ok response, db')
      → Created ctx body drawn response db'
  unfolding create_checked
  create_checked-Created (err e) response db' h = cc (ap (λ x. x.0) h)
  create_checked-Created (ok u) response db' h = elim (Bool-cases (has_duplicate body.events)) [
    | inl e ↦ cc (ap (λ x. x.0) (sym (if_true _ _ e) ∙ h))
    | inr e ↦
        let same = sym (if_false _ _ e) ∙ h in
        let answer : ok stored_answer ≡ ok response = ap (λ x. x.0) same in
        let p : stored_answer ≡ response = cc answer in
        let q : stored_tables ≡ db' = ap (λ x. x.1) same in rw (← p, ← q) stored-Created
  ]

-- When `create_endpoint` answers, the answer has the URL and the event types of the request. A
-- request of the same tenant that reads the new id next gets the same details, its listing has them,
-- and one of any other tenant gets a 404. The worker resolves the tenant's events of each of these
-- types to the new endpoint. All this holds provided that the id is no endpoint's yet and nothing is
-- subscribed to it.
pub create_endpoint-Created :
    (max_length : ℕ) (encrypt_secret : List ℕ → String) (net : Network) (ctx : AuthContext)
    (body : EndpointCreateRequest) (drawn : Drawn) (db : Tables) (response : EndpointCreateResponse)
    (db' : Tables)
    → All (λ (ep : Endpoint). ep.id ≢ drawn.id) db.endpoints
    → event_types drawn.id db.subscriptions ≡ []
    → create_endpoint max_length encrypt_secret net ctx body drawn db ≡ (ok response, db')
    → Created ctx body drawn response db'
unfolding create_endpoint
create_endpoint-Created max_length encrypt_secret net ctx body drawn db response db' fresh
      unsubscribed h =
    create_checked-Created encrypt_secret ctx body drawn db fresh unsubscribed
      (validate_webhook_url net body.url max_length) response db' h

not_found_after :
    (id : ℕ) (xs : List Endpoint)
    → find (λ (x : Endpoint). x.id == id) (select (λ (x : Endpoint). not (x.id == id)) xs) ≡ none
not_found_after id [] = refl
not_found_after id (x ∷ xs) = elim (Bool-cases (x.id == id)) [
  | inl e ↦ rw e (not_found_after id xs)
  | inr e ↦ rw (e, e) (not_found_after id xs)
]

-- What a request to delete an endpoint does, by the rows that there are.
pub data Deleted (ctx : AuthContext) (endpoint_id : ℕ) (db : Tables)
    (answer : Result EndpointError (Unit {0})) (db' : Tables) : Type 0 where
  not_owned :
      answer ≡ err EndpointError.not_found → db' ≡ db → Deleted ctx endpoint_id db answer db'
  still_referred :
      (ep : Endpoint)
      → Owns ctx endpoint_id db ep
      → any (λ (d : Delivery). d.endpoint_id == ep.id) db.deliveries ≡ true
      → answer ≡ err EndpointError.integrity_error
      → db' ≡ db
      → Deleted ctx endpoint_id db answer db'
  gone :
      (ep : Endpoint)
      → Owns ctx endpoint_id db ep
      → any (λ (d : Delivery). d.endpoint_id == ep.id) db.deliveries ≡ false
      → answer ≡ ok tt
      → ((reader : AuthContext)
          → read_endpoint reader endpoint_id db' ≡ err EndpointError.not_found)
      → event_types endpoint_id db'.subscriptions ≡ []
      → Deleted ctx endpoint_id db answer db'

owned_endpoint-not_found :
    (ctx : AuthContext) (row : Option Endpoint) (e : EndpointError)
    → owned_endpoint ctx row ≡ err e
    → e ≡ EndpointError.not_found
owned_endpoint-not_found ctx none e h = cc h
owned_endpoint-not_found ctx (some x) e h = elim (Bool-cases (x.tenant_id == ctx.tenant_id)) [
  | inl t ↦ let same : ok x ≡ err e = sym (if_true _ _ t) ∙ h in cc same
  | inr f ↦ let same : err EndpointError.not_found ≡ err e = sym (if_false _ _ f) ∙ h in cc same
]

delete_loaded-Deleted :
    (ctx : AuthContext) (endpoint_id : ℕ) (db : Tables) (loaded : Result EndpointError Endpoint)
    → owned_endpoint ctx (get_endpoint endpoint_id db) ≡ loaded
    → Deleted ctx endpoint_id db (delete_loaded loaded db).0 (delete_loaded loaded db).1
unfolding delete_loaded read_endpoint
delete_loaded-Deleted ctx endpoint_id db (err e) q =
    Deleted.not_owned (ap err (owned_endpoint-not_found ctx (get_endpoint endpoint_id db) e q)) refl
delete_loaded-Deleted ctx endpoint_id db (ok ep) q =
    let o = owned_endpoint-Owns ctx endpoint_id db ep q in
    let same : ep.id ≡ endpoint_id =
      (==_iff ep.id endpoint_id).0
        (Has-find (λ (x : Endpoint). x.id == endpoint_id) db.endpoints o.found).1 in
    elim (Bool-cases (any (λ (d : Delivery). d.endpoint_id == ep.id) db.deliveries)) [
      | inl e ↦ rw e (Deleted.still_referred ep o e refl refl)
      | inr e ↦ rw e (
          Deleted.gone ep o e refl
            (λ reader. rw (same, not_found_after endpoint_id db.endpoints) refl)
            (rw same (event_types-unsubscribe endpoint_id db.subscriptions)))
    ]

-- A request to delete an endpoint that is not there, or is another tenant's, answers 404 and changes
-- nothing. One for an endpoint that some delivery refers to fails by the database and changes
-- nothing. Any other one is answered: afterwards every client that reads the id gets a 404, and no
-- subscription of it is left.
pub delete_endpoint-Deleted :
    (ctx : AuthContext) (endpoint_id : ℕ) (db : Tables)
    → Deleted ctx endpoint_id db
        (delete_endpoint ctx endpoint_id db).0
        (delete_endpoint ctx endpoint_id db).1
unfolding delete_endpoint
delete_endpoint-Deleted ctx endpoint_id db = delete_loaded-Deleted ctx endpoint_id db _ refl
