-- ===== src/Api/Auth/Examples.antt =====
-- A tenant on the free plan, with one key.
use eventmesh.Base.{ℕ, String, ◌≤◌, ◌≡◌, refl, none, List, [], ◌∷◌, min, ok}
use eventmesh.Database.{ApiKey, Tenant, Tables}
use eventmesh.Database.Sample.{tables}
use eventmesh.Api.Auth.{
  AuthContext, Counters, raw_key, identify, admit, context_of, enforce_rate_limit, incr, rate_limit,
  get_auth_context,
}
use eventmesh.Api.Auth.Admission.{Identified, get_auth_context_ok}
use eventmesh.Api.Auth.RateLimit.{passed, passed-min}

abbrev free_tenant : Tenant
free_tenant = record { id = 1; name = "shop"; plan = "free"; status = "active" }

abbrev stored_key : ApiKey
stored_key = record {
  id = 2;
  tenant_id = 1;
  key_prefix = "em_live_ab12";
  key_hash = "digest";
  name = "default";
  role = "member";
  last_used_at = none;
  revoked_at = none;
}

abbrev with_key : Tables
with_key = record tables { tenants = free_tenant ∷ []; api_keys = stored_key ∷ [] }

abbrev digest : List ℕ → String
digest raw = "digest"

abbrev unused : Counters
unused tenant window = 0

abbrev client : AuthContext
client = record { tenant_id = 1; api_key_id = 2; plan = "free" }

let_in : (get_auth_context digest "Bearer em_live_ab12cd" 5000 0 (with_key, unused)).0 ≡ ok client
unfolding get_auth_context identify raw_key admit enforce_rate_limit
let_in = refl

get_auth_context_ok_example :
    (k : ApiKey) × (t : Tenant) × Identified digest "Bearer em_live_ab12cd" with_key k t
    × (client ≡ context_of k t)
    × (incr t.id 0 unused t.id 0 ≤ rate_limit t.plan)
get_auth_context_ok_example =
    get_auth_context_ok digest "Bearer em_live_ab12cd" 5000 0 with_key unused client let_in

passed-min_example : passed client 0 250 unused ≡ min 250 (rate_limit "free")
passed-min_example = passed-min client 0 250 unused refl
