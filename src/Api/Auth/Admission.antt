-- ===== src/Api/Auth/Admission.antt =====
-- Who is let in.
use eventmesh.Base.{
  ℕ, String, ◌≤◌, ◌≡◌, refl, ap, subst, Option, none, some, List, Result, ok, err, Has, Has-find,
  str_eq, eq_iff, arith,
}
use eventmesh.Database.{ApiKey, Tenant, Tables, get_tenant}
use eventmesh.Api.Auth.{
  AuthContext, AuthError, Counters, raw_key, accept_key, accept_tenant, identify_tenant,
  identify_key, identify, admit, context_of, enforce_rate_limit, incr, rate_limit, get_auth_context,
}

module _ (hash_api_key : List ℕ → String) where
  -- A stored key with the hash of the presented one, not revoked, of a tenant that is active.
  pub record Identified (authz : String) (db : Tables) (k : ApiKey) (t : Tenant) : Type 0 where
    pub raw : List ℕ
    pub presented : raw_key authz ≡ ok raw
    pub stored : Has k db.api_keys
    pub hashed : k.key_hash ≡ hash_api_key raw
    pub valid : k.revoked_at ≡ none
    pub member : get_tenant k.tenant_id db ≡ some t
    pub active : t.status ≡ "active"

  accept_tenant-ok :
      (k k' : ApiKey) (found : Option Tenant) (t : Tenant)
      → accept_tenant k found ≡ ok (k', t)
      → (k ≡ k') × (found ≡ some t) × (t.status ≡ "active")
  accept_tenant-ok k k' none t h = cc h
  accept_tenant-ok k k' (some x) t h = ground (arith, eq_iff x.status "active")

  accept_key-ok :
      (found : Option ApiKey) (k : ApiKey)
      → accept_key found ≡ ok k
      → (found ≡ some k) × (k.revoked_at ≡ none)
  accept_key-ok none k h = cc h
  accept_key-ok (some x) k h = ground arith

  identify_tenant-ok :
      (db : Tables) (r : Result AuthError ApiKey) (k : ApiKey) (t : Tenant)
      → identify_tenant hash_api_key db r ≡ ok (k, t)
      → (r ≡ ok k) × (get_tenant k.tenant_id db ≡ some t) × (t.status ≡ "active")
  identify_tenant-ok db (err e) k t h = cc h
  identify_tenant-ok db (ok x) k t h =
      let (same, found, active) = accept_tenant-ok x k (get_tenant x.tenant_id db) t h in
      (ap ok same, subst (λ (y : ApiKey). get_tenant y.tenant_id db ≡ some t) same found, active)

  identify_key-ok :
      (authz : String) (db : Tables) (r : Result AuthError (List ℕ)) (k : ApiKey) (t : Tenant)
      → raw_key authz ≡ r
      → identify_key hash_api_key db r ≡ ok (k, t)
      → Identified authz db k t
  identify_key-ok authz db (err e) k t q h = cc h
  identify_key-ok authz db (ok raw) k t q h =
      let (accepted, found, active) = identify_tenant-ok db _ k t h in
      let (stored, valid) = accept_key-ok _ k accepted in
      let (there, test) =
        Has-find (λ (y : ApiKey). str_eq y.key_hash (hash_api_key raw)) db.api_keys stored in
      record {
        raw = raw;
        presented = q;
        stored = there;
        hashed = (eq_iff k.key_hash (hash_api_key raw)).0 test;
        valid = valid;
        member = found;
        active = active;
      }

admit-ok :
    (r : Result AuthError (ApiKey × Tenant)) (now window : ℕ) (db : Tables) (counters : Counters)
    (ctx : AuthContext)
    → (admit r now window (db, counters)).0 ≡ ok ctx
    → (k : ApiKey) × (t : Tenant) × (r ≡ ok (k, t))
      × (ctx ≡ context_of k t)
      × (incr t.id window counters t.id window ≤ rate_limit t.plan)
unfolding admit enforce_rate_limit
admit-ok (err e) now window db counters ctx h = cc h
admit-ok (ok (k, t)) now window db counters ctx h = (k, t, refl, ground arith, ground arith)

-- A request is let in only if its header holds a key whose hash is that of a stored key, which is
-- not revoked and belongs to an active tenant; the request then acts for that tenant, whose count
-- for the minute, this request included, is within the limit of its plan.
pub get_auth_context_ok :
    (hash_api_key : List ℕ → String) (authz : String) (now window : ℕ) (db : Tables)
    (counters : Counters) (ctx : AuthContext)
    → (get_auth_context hash_api_key authz now window (db, counters)).0 ≡ ok ctx
    → (k : ApiKey) × (t : Tenant) × Identified hash_api_key authz db k t
      × (ctx ≡ context_of k t)
      × (incr t.id window counters t.id window ≤ rate_limit t.plan)
unfolding get_auth_context identify
get_auth_context_ok hash_api_key authz now window db counters ctx h =
    let (k, t, found, same, within) = admit-ok _ now window db counters ctx h in
    (k, t, identify_key-ok hash_api_key authz db _ k t refl found, same, within)
