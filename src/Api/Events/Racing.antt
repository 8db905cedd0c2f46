-- ===== src/Api/Events/Racing.antt =====
-- Two requests under one idempotency key whose lookups both come before the first commit. The unique
-- constraint on the key's columns makes the database refuse the later one.
use eventmesh.Base.{
  ℕ, String, ◌≡◌, ◌≢◌, ◌≤◌, refl, ap, ◌∙◌, Option, none, some, Result, ok, err, ltb, is_some, not,
  true, if◌then◌else◌,
}
use eventmesh.Database.{Tables}
use eventmesh.Api.Auth.{AuthContext}
use eventmesh.Api.Events.{
  ApiSettings, ApiError, EventCreateRequest, Fresh, truthy, find_key, seen, store_event,
  is_storable, create_event,
}
use eventmesh.Api.Events.Idempotency.{seen-store_event, truthy_of, within, create_event_unseen}

-- What ends a request: an answer of the handler, or the database's IntegrityError.
pub data CommitError : Type 0 where
  api_error : ApiError → CommitError
  integrity_error : CommitError

-- From `event = Event(…)` on, at a database that may already hold the key. The rows of events go to
-- the database before the key does, and no key in it is one that does not fit.
unfoldable pub commit_event :
    ApiSettings
    → AuthContext
    → Option String
    → EventCreateRequest
    → Fresh
    → Tables
    → Result CommitError ℕ × Tables
commit_event settings ctx key body fresh db =
    if not (is_storable key body)
    then (err (CommitError.api_error ApiError.database_error), db)
    else if is_some (seen ctx.tenant_id key db)
    then (err CommitError.integrity_error, db)
    else (ok fresh.event_id, store_event settings ctx.tenant_id key body fresh db)

-- `create_event`, whose lookup saw the first database and whose commit meets the second.
unfoldable pub create_event_between :
    ApiSettings
    → AuthContext
    → EventCreateRequest
    → Fresh
    → Tables
    → Tables
    → Result CommitError ℕ × Tables
create_event_between settings ctx body fresh view db =
    let key = truthy body.idempotency_key in
    if ltb settings.max_event_payload_bytes body.content_length
    then (err (CommitError.api_error ApiError.payload_too_large), db)
    else elim (seen ctx.tenant_id key view) [
      | some row ↦ (ok row.event_id, db)
      | none ↦ commit_event settings ctx key body fresh db
    ]

module _ (settings : ApiSettings) (ctx : AuthContext) (k : String) (view : Tables)
    (not_empty : k ≢ "") (new : find_key ctx.tenant_id k view ≡ none) where
  reaches_commit :
      (body : EventCreateRequest) (fresh : Fresh) (db : Tables)
      → body.idempotency_key ≡ some k
      → body.content_length ≤ settings.max_event_payload_bytes
      → create_event_between settings ctx body fresh view db
        ≡ commit_event settings ctx (some k) body fresh db
  unfolding create_event_between
  reaches_commit body fresh db e fits =
      rw (within _ body.content_length fits, truthy_of body.idempotency_key k e not_empty, new)
        (ap (λ key. commit_event settings ctx key body fresh db)
          (truthy_of body.idempotency_key k e not_empty))

  commits_alone :
      (body : EventCreateRequest) (fresh : Fresh)
      → is_storable (some k) body ≡ true
      → commit_event settings ctx (some k) body fresh view
        ≡ (ok fresh.event_id, store_event settings ctx.tenant_id (some k) body fresh view)
  unfolding commit_event
  commits_alone body fresh storable = rw (storable, new) refl

  refused_later :
      (body again : EventCreateRequest) (fresh later : Fresh)
      → is_storable (some k) again ≡ true
      → let db' = store_event settings ctx.tenant_id (some k) body fresh view in
        commit_event settings ctx (some k) again later db' ≡ (err CommitError.integrity_error, db')
  unfolding commit_event
  refused_later body again fresh later storable =
      rw (storable, seen-store_event settings ctx.tenant_id k body fresh view new) refl

-- Two requests of a tenant under one new idempotency key that is not empty, both within the size
-- limit and with values that fit their columns, whose lookups both precede the first commit: the first one stores its event and is answered
-- with its id. The second one stores nothing, and ends in the database's error, not in that id.
pub create_event_race :
    (settings : ApiSettings) (ctx : AuthContext) (body again : EventCreateRequest)
    (fresh later : Fresh) (db : Tables) (k : String)
    → k ≢ ""
    → find_key ctx.tenant_id k db ≡ none
    → body.idempotency_key ≡ some k
    → again.idempotency_key ≡ some k
    → body.content_length ≤ settings.max_event_payload_bytes
    → again.content_length ≤ settings.max_event_payload_bytes
    → is_storable (some k) body ≡ true
    → is_storable (some k) again ≡ true
    → let (answer, db') = create_event_between settings ctx body fresh db db in
      (answer ≡ ok fresh.event_id)
      × (db' ≡ (create_event settings ctx body fresh db).1)
      × (create_event_between settings ctx again later db db'
          ≡ (err CommitError.integrity_error, db'))
create_event_race settings ctx body again fresh later db k h new e e' fits fits' storable
      storable' =
    let first =
      reaches_commit settings ctx k db h new body fresh db e fits
      ∙ commits_alone settings ctx k db h new body fresh storable in
    rw (first, create_event_unseen settings ctx body fresh db k e h fits new storable)
      (
        refl,
        refl,
        reaches_commit settings ctx k db h new again later _ e' fits'
            ∙ refused_later settings ctx k db h new body again fresh later storable',
      )
