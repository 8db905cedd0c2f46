-- ===== src/Api/Events/Repeats.antt =====
-- An idempotency key over its time to live: what may happen between a request and its repeat.
use eventmesh.Base.{ℕ, ◌≤◌, String, ◌≡◌, some}
use eventmesh.Database.{IdempotencyKey, Tables}
use eventmesh.Scheduler.{RetentionSettings, cleanup_round}
use eventmesh.Api.Auth.{AuthContext}
use eventmesh.Api.Events.{ApiSettings, EventCreateRequest, Fresh, find_key, create_event}

-- What may happen to the idempotency keys: cleanups up to the given time, requests to create events,
-- of any tenant and with any key, and whatever leaves the keys as they are.
pub data Meanwhile (expiry : ℕ) (db : Tables) : Tables → Type 0 where
  nothing : Meanwhile expiry db db
  cleaned :
      {t : Tables} (settings : RetentionSettings) (now : ℕ)
      → Meanwhile expiry db t
      → now ≤ expiry
      → Meanwhile expiry db (cleanup_round settings now t)
  created :
      {t : Tables} (settings : ApiSettings) (ctx : AuthContext) (body : EventCreateRequest)
      (fresh : Fresh)
      → Meanwhile expiry db t
      → Meanwhile expiry db (create_event settings ctx body fresh t).1
  elsewhere :
      {t u : Tables}
      → Meanwhile expiry db t
      → u.idempotency_keys ≡ t.idempotency_keys
      → Meanwhile expiry db u

module _ (tenant_id : ℕ) (k : String) (row : IdempotencyKey) where
  abbrev Known : Tables → Type 0
  Known db = find_key tenant_id k db ≡ some row
