-- ===== src/Api/Auth/RateLimit.antt =====
-- How many requests of a tenant pass in a minute.
use eventmesh.Base.{ℕ, zero, suc, ◌+◌, min, ◌≡◌, refl, arith, ==_iff, if◌then◌else◌, leb}
use eventmesh.Api.Auth.{AuthContext, Counters, rate_limit, incr, enforce_rate_limit}

-- How many of `n` requests in one minute pass.
unfoldable pub passed : AuthContext → ℕ → ℕ → Counters → ℕ
unfolding enforce_rate_limit
passed ctx window zero counters = 0
passed ctx window (suc n) counters =
    let (passes, counters') = enforce_rate_limit ctx window counters in
    let rest = passed ctx window n counters' in if passes then suc rest else rest

incr_own : (t w : ℕ) (counters : Counters) → incr t w counters t w ≡ counters t w + 1
incr_own t w counters = rw ((==_iff t t).1 refl, (==_iff w w).1 refl) refl

step :
    (p before after limit n : ℕ)
    → after ≡ before + 1
    → p + min after limit ≡ min (after + n) limit
    → (if leb after limit then suc p else p) + min before limit ≡ min (before + suc n) limit
step p before after limit n e h = ground arith

passed_from :
    (ctx : AuthContext) (window n : ℕ) (counters : Counters)
    → passed ctx window n counters + min (counters ctx.tenant_id window) (rate_limit ctx.plan)
      ≡ min (counters ctx.tenant_id window + n) (rate_limit ctx.plan)
unfolding passed enforce_rate_limit
passed_from ctx window zero counters = omega arith
passed_from ctx window (suc n) counters =
    step (passed ctx window n (incr ctx.tenant_id window counters)) (counters ctx.tenant_id window)
      _ (rate_limit ctx.plan) n (incr_own ctx.tenant_id window counters)
      (passed_from ctx window n (incr ctx.tenant_id window counters))

-- Of any number of requests of a tenant within one minute that starts with a counter at zero, as
-- many pass as the limit of the plan allows, and no more.
pub passed-min :
    (ctx : AuthContext) (window n : ℕ) (counters : Counters)
    → counters ctx.tenant_id window ≡ 0
    → passed ctx window n counters ≡ min n (rate_limit ctx.plan)
passed-min ctx window n counters z = let counted = passed_from ctx window n counters in omega arith
