-- ===== src/Common/CircuitBreaker/Examples.antt =====
-- The breaker at concrete inputs: the defaults of the settings, in microseconds.
use eventmesh.Base.{◌≡◌, refl, false, some, [], ◌∷◌, map, arith}
use eventmesh.Common.Enums.{opened, half_open}
use eventmesh.Common.CircuitBreaker.{
  CircuitBreaker, Call, new_breaker, allow_request, allow_request_within, run,
}
use eventmesh.Common.CircuitBreaker.Invariant.{allow_request_ends}
use eventmesh.Common.CircuitBreaker.Trips.{run-fails_trips}
use eventmesh.Common.CircuitBreaker.Probe.{allow_request_single_probe}

abbrev fresh : CircuitBreaker
fresh = new_breaker 5 30_000_000 1

abbrev tripped : CircuitBreaker
tripped = record fresh {
  state = record {
    state = opened;
    consecutive_failures = 5;
    opened_at = some 100;
    half_open_probe_in_flight = false;
  };
}

abbrev trial : CircuitBreaker
trial = record tripped {
  state = record {
    state = half_open;
    consecutive_failures = 5;
    opened_at = some 100;
    half_open_probe_in_flight = false;
  };
}

allow_request_ends_example :
    allow_request_within 2 90_000_000 tripped ≡ some (allow_request 90_000_000 tripped)
allow_request_ends_example = allow_request_ends 0 90_000_000 tripped

run-fails_trips_example : (run fresh (map Call.fails (1 ∷ 2 ∷ 3 ∷ 4 ∷ 5 ∷ []))).state.state ≡ opened
run-fails_trips_example = run-fails_trips fresh (1 ∷ 2 ∷ 3 ∷ 4 ∷ 5 ∷ []) refl (omega arith)

allow_request_single_probe_example :
    (allow_request 90_000_000
      (run (allow_request 30_000_100 tripped).1 (map Call.asks (5 ∷ 6 ∷ [])))).0
    ≡ false
allow_request_single_probe_example =
    (allow_request_single_probe 30_000_100 tripped (5 ∷ 6 ∷ []) 90_000_000 refl refl
      (omega arith)).2
