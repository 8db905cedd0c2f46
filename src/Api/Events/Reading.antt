-- ===== src/Api/Events/Reading.antt =====
-- What clients read of an event after its creation: `get_event` with its answer.
use eventmesh.Base.{
  ℕ, ◌≡◌, ◌≢◌, refl, sym, ◌∙◌, true, false, none, some, Option, List, [], ◌∷◌, ◌++◌, String, ◌==◌,
  ==_iff, find, All, if_true, if_false, ◌≤◌, arith, Result, ok, err,
}
use eventmesh.Common.Enums.{EventStatus}
use eventmesh.Database.{Event, Tables}
use eventmesh.Api.Auth.{AuthContext}
use eventmesh.Api.Schemas.{EventDetail, event_detail}
use eventmesh.Api.Events.{
  ApiSettings, ApiError, EventCreateRequest, Fresh, truthy, seen, new_event, store_event,
  is_storable, commit_new, create_event, read_event,
}
use eventmesh.Api.Events.Idempotency.{within}

-- `return EventDetail.model_validate(event)`
abbrev pub shown : ℕ → Result ApiError Event → Result ApiError EventDetail
shown updated_at (err e) = err e
shown updated_at (ok event) = ok (event_detail updated_at event)

-- The whole answer of `get_event`
abbrev pub answer_event : ℕ → AuthContext → ℕ → Tables → Result ApiError EventDetail
answer_event updated_at ctx event_id db = shown updated_at (read_event ctx event_id db)

-- What the creator of an event reads, and what all others do.
pub record Readable (ctx : AuthContext) (body : EventCreateRequest) (fresh : Fresh) (db : Tables)
    : Type 0 where
  pub own :
      (reader : AuthContext) (updated_at : ℕ)
      → reader.tenant_id ≡ ctx.tenant_id
      → answer_event updated_at reader fresh.event_id db
        ≡ ok (record {
          id = fresh.event_id;
          tenant_id = ctx.tenant_id;
          event_type = body.event_type;
          payload = body.content;
          status = EventStatus.received;
          entity_id = body.entity_id;
          sequence_number = body.sequence;
          created_at = fresh.now;
          updated_at = updated_at;
        })
  pub others :
      (reader : AuthContext) (updated_at : ℕ)
      → reader.tenant_id ≢ ctx.tenant_id
      → answer_event updated_at reader fresh.event_id db ≡ err ApiError.not_found

find_new :
    (es : List Event) (e : Event)
    → All (λ (x : Event). x.id ≢ e.id) es
    → find (λ (x : Event). x.id == e.id) (es ++ e ∷ []) ≡ some e
find_new [] e h = if_true _ _ ((==_iff e.id e.id).1 refl)
find_new (x ∷ es) e (differs, h) =
    let other : (x.id == e.id) ≡ false = ground (arith, differs) in
    if_false _ _ other ∙ find_new es e h

stored-Readable :
    (settings : ApiSettings) (ctx : AuthContext) (body : EventCreateRequest) (fresh : Fresh)
    (key : Option String) (db : Tables)
    → All (λ (x : Event). x.id ≢ fresh.event_id) db.events
    → Readable ctx body fresh (store_event settings ctx.tenant_id key body fresh db)
unfolding store_event read_event
stored-Readable settings ctx body fresh key db new =
    let found = find_new db.events (new_event ctx.tenant_id body fresh) new in
    record {
      own = λ reader updated_at same.
          rw (found, (==_iff ctx.tenant_id reader.tenant_id).1 (sym same)) refl;
      others = λ reader updated_at differs.
          let other : (ctx.tenant_id == reader.tenant_id) ≡ false = ground (arith, differs) in
          rw (found, other) refl;
    }

-- A request within the size limit, whose idempotency key is missing, empty or not seen before, whose
-- values fit their columns, and whose drawn id no event has: after it the tenant's clients read the event under that id with the
-- type, the content, the entity and the sequence of the request and the status `received`, and the
-- clients of all other tenants are told that there is none.
pub create_event-Readable :
    (settings : ApiSettings) (ctx : AuthContext) (body : EventCreateRequest) (fresh : Fresh)
    (db : Tables)
    → body.content_length ≤ settings.max_event_payload_bytes
    → seen ctx.tenant_id (truthy body.idempotency_key) db ≡ none
    → is_storable (truthy body.idempotency_key) body ≡ true
    → All (λ (x : Event). x.id ≢ fresh.event_id) db.events
    → Readable ctx body fresh (create_event settings ctx body fresh db).1
unfolding create_event commit_new
create_event-Readable settings ctx body fresh db fits unseen storable new =
    rw (within settings.max_event_payload_bytes body.content_length fits, unseen, storable)
      (stored-Readable settings ctx body fresh (truthy body.idempotency_key) db new)
