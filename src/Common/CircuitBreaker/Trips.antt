-- ===== src/Common/CircuitBreaker/Trips.antt =====
-- When a breaker opens.
use eventmesh.Base.{ℕ, ◌+◌, ◌≤◌, ◌<◌, ◌≡◌, List, [], ◌∷◌, map, arith, length, ltb, if◌then◌else◌}
use eventmesh.Common.Enums.{closed, opened}
use eventmesh.Common.CircuitBreaker.{
  CircuitBreaker, Call, record_failure, record_success, call, run,
}

-- An OPEN breaker that has counted up to its threshold stays OPEN under further failures.
run-fails_opened :
    (cb : CircuitBreaker) (times : List ℕ)
    → cb.state.state ≡ opened
    → cb.failure_threshold ≤ cb.state.consecutive_failures
    → (run cb (map Call.fails times)).state.state ≡ opened
unfolding run call record_failure
run-fails_opened cb [] e h = e
run-fails_opened cb (t ∷ ts) e h =
    run-fails_opened (record_failure t cb) ts (ground arith) (ground arith)

-- From a CLOSED breaker with fewer failures than its threshold, a run of failures at any times
-- opens it exactly when the failures counted before and in the run reach the threshold; otherwise
-- it is still CLOSED.
pub run-fails_trips :
    (cb : CircuitBreaker) (times : List ℕ)
    → cb.state.state ≡ closed
    → cb.state.consecutive_failures < cb.failure_threshold
    → (run cb (map Call.fails times)).state.state ≡ (
        if ltb (cb.state.consecutive_failures + length times) cb.failure_threshold
        then closed
        else opened)
unfolding run call record_failure
run-fails_trips cb [] e h = ground arith
run-fails_trips cb (t ∷ ts) e h =
    ground
      (arith, run-fails_opened (record_failure t cb) ts, run-fails_trips (record_failure t cb) ts)

-- One success clears the count, from CLOSED or OPEN alike: after it, a run of failures opens the
-- breaker exactly when it is at least as long as the threshold.
pub run-fails_after_success :
    (cb : CircuitBreaker) (times : List ℕ)
    → 0 < cb.failure_threshold
    → (run (record_success cb) (map Call.fails times)).state.state
      ≡ (if ltb (length times) cb.failure_threshold then closed else opened)
unfolding record_success
run-fails_after_success cb times h = ground (arith, run-fails_trips (record_success cb) times)
