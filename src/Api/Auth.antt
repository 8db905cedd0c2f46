-- ===== src/Api/Auth.antt =====
-- apps/api/eventmesh_api/auth_deps.py, with `hash_api_key` as a parameter. Redis counts the requests
-- of a tenant in a minute; that the counters of past minutes expire is left out.
pub mod Admission
pub mod RateLimit
mod Examples
use eventmesh.Base.{
  ℕ, ◌+◌, String, Bool, true, false, ◌&&◌, ◌||◌, Option, none, some, List, [], ◌∷◌, ◌==◌, str_eq,
  ltb, leb, find, update, is_some, codes, strip, if◌then◌else◌, Result, ok, err,
}
use eventmesh.Common.Enums.{TenantPlan, TenantStatus, tenant_plan_value, tenant_status_value}
use eventmesh.Database.{ApiKey, Tenant, Tables, get_tenant}

-- `AuthContext`
pub record AuthContext : Type 0 where
  pub tenant_id : ℕ
  pub api_key_id : ℕ
  pub plan : String

-- `HTTPException`, by its message
pub data AuthError : Type 0 where
  malformed_header empty_key invalid_key inactive_tenant rate_limited : AuthError

-- `text.startswith(prefix)`, and then `text.removeprefix(prefix)`
abbrev pub without_prefix : List ℕ → List ℕ → Option (List ℕ)
without_prefix [] text = some text
without_prefix (p ∷ ps) [] = none
without_prefix (p ∷ ps) (c ∷ cs) = let rest = without_prefix ps cs in if p == c then rest else none

abbrev pub non_empty : List ℕ → Result AuthError (List ℕ)
non_empty [] = err AuthError.empty_key
non_empty (c ∷ cs) = ok (c ∷ cs)

abbrev pub key_of : Option (List ℕ) → Result AuthError (List ℕ)
key_of none = err AuthError.malformed_header
key_of (some rest) = non_empty (strip rest)

-- The key that the header holds.
unfoldable pub raw_key : String → Result AuthError (List ℕ)
raw_key authz = key_of (without_prefix (codes "Bearer ") (codes authz))

-- `api_key is None or api_key.revoked_at is not None`
abbrev pub accept_key : Option ApiKey → Result AuthError ApiKey
accept_key none = err AuthError.invalid_key
accept_key (some k) = if is_some k.revoked_at then err AuthError.invalid_key else ok k

-- `tenant is None or tenant.status != "active"`
abbrev pub accept_tenant : ApiKey → Option Tenant → Result AuthError (ApiKey × Tenant)
accept_tenant k none = err AuthError.inactive_tenant
accept_tenant k (some t) =
    if str_eq t.status "active" then ok (k, t) else err AuthError.inactive_tenant

-- `RATE_LIMITS.get(ctx.plan, RATE_LIMITS[TenantPlan.FREE.value])`
abbrev pub rate_limit : String → ℕ
rate_limit plan =
    if str_eq plan (tenant_plan_value TenantPlan.pro)
    then 1000
    else if str_eq plan (tenant_plan_value TenantPlan.enterprise)
    then 10000
    else 100

-- The counters of Redis: the count of a tenant in a minute.
abbrev pub Counters : Type 0
Counters = ℕ → ℕ → ℕ

-- `INCR`
abbrev pub incr : ℕ → ℕ → Counters → Counters
incr tenant window counters t w =
    if t == tenant && w == window then counters t w + 1 else counters t w

-- `_enforce_rate_limit`: whether the request may pass, and the counters after it
unfoldable pub enforce_rate_limit : AuthContext → ℕ → Counters → Bool × Counters
enforce_rate_limit ctx window counters =
    let counters' = incr ctx.tenant_id window counters in
    (leb (counters' ctx.tenant_id window) (rate_limit ctx.plan), counters')

abbrev pub context_of : ApiKey → Tenant → AuthContext
context_of k t = record { tenant_id = t.id; api_key_id = k.id; plan = t.plan }

-- From the update of `last_used_at` on.
unfoldable pub admit :
    Result AuthError (ApiKey × Tenant)
    → ℕ
    → ℕ
    → Tables × Counters
    → Result AuthError AuthContext × Tables × Counters
admit (err e) now window (db, counters) = (err e, db, counters)
admit (ok (k, t)) now window (db, counters) =
    let db' = record db {
      api_keys =
          update (λ (a : ApiKey). a.id == k.id) (λ a. record a { last_used_at = some now })
            db.api_keys;
    } in
    let (passes, counters') = enforce_rate_limit (context_of k t) window counters in
    (if passes then ok (context_of k t) else err AuthError.rate_limited, db', counters')

module _ (hash_api_key : List ℕ → String) where
  abbrev pub identify_tenant : Tables → Result AuthError ApiKey → Result AuthError (ApiKey × Tenant)
  identify_tenant db (err e) = err e
  identify_tenant db (ok k) = accept_tenant k (get_tenant k.tenant_id db)

  abbrev pub identify_key : Tables → Result AuthError (List ℕ) → Result AuthError (ApiKey × Tenant)
  identify_key db (err e) = err e
  identify_key db (ok raw) =
      identify_tenant db
        (accept_key (find (λ (k : ApiKey). str_eq k.key_hash (hash_api_key raw)) db.api_keys))

  -- The tests of `get_auth_context`, in their order.
  unfoldable pub identify : String → Tables → Result AuthError (ApiKey × Tenant)
  identify authz db = identify_key db (raw_key authz)

  -- `get_auth_context`
  unfoldable pub get_auth_context :
      String → ℕ → ℕ → Tables × Counters → Result AuthError AuthContext × Tables × Counters
  get_auth_context authz now window (db, counters) =
      admit (identify authz db) now window (db, counters)
