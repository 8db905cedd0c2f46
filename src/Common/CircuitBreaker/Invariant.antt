-- ===== src/Common/CircuitBreaker/Invariant.antt =====
-- What every reachable breaker keeps, and that the recursion of `allow_request` ends.
use eventmesh.Base.{ℕ, suc, ◌<◌, ◌≡◌, true, some, List, [], ◌∷◌, arith, is_some}
use eventmesh.Common.Enums.{closed, opened, half_open}
use eventmesh.Common.CircuitBreaker.{
  CircuitBreaker, new_breaker, allow_request_within, allow_request, call, Call, run,
}

pub record IsValid (cb : CircuitBreaker) : Type 0 where
  pub positive : 0 < cb.failure_threshold
  pub below : cb.state.state ≡ closed → cb.state.consecutive_failures < cb.failure_threshold
  pub stamped : cb.state.state ≡ opened → is_some cb.state.opened_at ≡ true
  pub probing : cb.state.half_open_probe_in_flight ≡ true → cb.state.state ≡ half_open

-- The recursive call in `allow_request` is made at most once: with fuel for two calls or more, at
-- any clock reading and in any state, the literal recursion returns the answer and the state of
-- `allow_request`.
pub allow_request_ends :
    (fuel now : ℕ) (cb : CircuitBreaker)
    → allow_request_within (suc (suc fuel)) now cb ≡ some (allow_request now cb)
unfolding allow_request_within allow_request
allow_request_ends fuel now cb = ground arith

pub new_breaker-IsValid : (n d p : ℕ) → 0 < n → IsValid (new_breaker n d p)
new_breaker-IsValid n d p h = ground arith

call-IsValid : (cb : CircuitBreaker) (c : Call) → IsValid cb → IsValid (call cb c)
unfolding call
call-IsValid cb (Call.asks now) v = ground arith
call-IsValid cb (Call.succeeds now) v = ground arith
call-IsValid cb (Call.fails now) v = ground arith

-- Any history of calls, at any times, keeps a valid breaker valid: a CLOSED breaker has counted
-- fewer failures than its threshold, an OPEN one has the time at which it opened, and a probe is
-- in flight only while it is HALF_OPEN.
pub run-IsValid : (cb : CircuitBreaker) (cs : List Call) → IsValid cb → IsValid (run cb cs)
unfolding run
run-IsValid cb [] v = v
run-IsValid cb (c ∷ cs) v = run-IsValid (call cb c) cs (call-IsValid cb c v)
