-- ===== src/Api/Endpoints/Isolation.antt =====
-- What a client's request leaves of the endpoints of the other tenants.
use eventmesh.Base.{
  ℕ, String, ◌≡◌, ◌≢◌, refl, sym, ap, ◌∙◌, not, Option, none, some, List, ◌==◌, All, Has, All-Has,
  Keyed, Keyed-unique, Has-find, Has-append_left, Has-update_other, Has-select_of,
}
use eventmesh.Database.{Endpoint, Tables}
use eventmesh.Api.Auth.{AuthContext}
use eventmesh.Api.Endpoints.{event_types}
use eventmesh.Api.Endpoints.Requests.{Operation, replace_events, with_fields, perform}
use eventmesh.Api.Endpoints.Subscriptions.{
  not_same, event_types-subscribe_other, event_types-unsubscribe_other,
}
use eventmesh.Api.Endpoints.Change.{Owns, Change, perform-Change}

-- The id that `uuid4` draws for a new endpoint is no endpoint's yet.
abbrev pub DrawsFresh : Tables → Operation → Type 0
DrawsFresh db (Operation.create net body drawn) =
    All (λ (ep : Endpoint). ep.id ≢ drawn.id) db.endpoints
DrawsFresh db (Operation.change net endpoint_id body) = Unit
DrawsFresh db (Operation.delete endpoint_id) = Unit

-- The endpoint stands in the second database too, with the event types that it had in the first.
pub record Untouched (ep : Endpoint) (db db' : Tables) : Type 0 where
  pub row : Has ep db'.endpoints
  pub events : event_types ep.id db'.subscriptions ≡ event_types ep.id db.subscriptions

module _ (max_length : ℕ) (encrypt_secret : List ℕ → String) (ctx : AuthContext) (db : Tables)
    (keyed : Keyed (λ (e : Endpoint). e.id) db.endpoints) (ep : Endpoint)
    (here : Has ep db.endpoints) (away : ep.tenant_id ≢ ctx.tenant_id) where
  -- The endpoint that the client owns is another.
  owned_differs : (endpoint_id : ℕ) (x : Endpoint) → Owns ctx endpoint_id db x → x.id ≢ ep.id
  owned_differs endpoint_id x o q =
      let (m, t) = Has-find _ db.endpoints o.found in
      away (
        ap (λ (e : Endpoint). e.tenant_id) (sym (Keyed-unique _ db.endpoints keyed m here q))
        ∙ o.own)

  replaced :
      (x : Endpoint) (events : Option (List String))
      → x.id ≢ ep.id
      → event_types ep.id (replace_events x.id events db.subscriptions)
        ≡ event_types ep.id db.subscriptions
  replaced x none h = refl
  replaced x (some events) h =
      event_types-subscribe_other ep.id x.id events _ h
      ∙ event_types-unsubscribe_other ep.id x.id _ h

  Change-Untouched :
      (op : Operation) (db' : Tables)
      → DrawsFresh db op
      → Change max_length encrypt_secret ctx db db' op
      → Untouched ep db db'
  Change-Untouched op db' fresh (Change.refused e) = rw e (record { row = here; events = refl })
  Change-Untouched op db' fresh (Change.stored net body drawn c e) = rw e (record {
    row = Has-append_left ep db.endpoints _ here;
    events =
        event_types-subscribe_other ep.id drawn.id body.events db.subscriptions
          (λ q. All-Has _ db.endpoints fresh here (sym q));
  })
  Change-Untouched op db' fresh (Change.updated net endpoint_id body x o c e) =
      let h = owned_differs endpoint_id x o in
      rw e (record {
        row =
            Has-update_other ep (λ (e : Endpoint). e.id == x.id) (with_fields body) db.endpoints
              here (not_same ep.id x.id (λ q. h (sym q)));
        events = replaced x body.events h;
      })
  Change-Untouched op db' fresh (Change.removed endpoint_id x o k e) =
      let h = owned_differs endpoint_id x o in
      rw e (record {
        row =
            Has-select_of ep (λ (e : Endpoint). not (e.id == x.id)) db.endpoints here
              (ap not (not_same ep.id x.id (λ q. h (sym q))));
        events = event_types-unsubscribe_other ep.id x.id db.subscriptions h;
      })

-- A request of a client that creates, changes or deletes an endpoint leaves each endpoint of another
-- tenant as it was, with the event types that it is subscribed to; provided that the endpoints' ids
-- differ, and that a new endpoint's id is no endpoint's yet.
pub perform-Untouched :
    (max_length : ℕ) (encrypt_secret : List ℕ → String) (ctx : AuthContext) (op : Operation)
    (db : Tables) (ep : Endpoint)
    → Keyed (λ (e : Endpoint). e.id) db.endpoints
    → DrawsFresh db op
    → Has ep db.endpoints
    → ep.tenant_id ≢ ctx.tenant_id
    → Untouched ep db (perform max_length encrypt_secret ctx op db)
perform-Untouched max_length encrypt_secret ctx op db ep keyed fresh here away =
    Change-Untouched max_length encrypt_secret ctx db keyed ep here away op _ fresh
      (perform-Change max_length encrypt_secret ctx db op)
