-- ===== src/Common/CircuitBreaker.antt =====
-- packages/common/eventmesh_common/circuit_breaker.py. The clock is an argument of each call;
-- times and durations are in microseconds.
pub mod Invariant
pub mod Trips
pub mod Probe
mod Examples
use eventmesh.Base.{
  ℕ, zero, suc, ◌+◌, Bool, true, false, Option, none, some, List, [], ◌∷◌, ltb, leb, if◌then◌else◌,
}
use eventmesh.Common.Enums.{CircuitState, closed, opened, half_open}

pub record CircuitBreakerState : Type 0 where
  pub state : CircuitState
  pub consecutive_failures : ℕ
  pub opened_at : Option ℕ
  pub half_open_probe_in_flight : Bool

pub record CircuitBreaker : Type 0 where
  pub failure_threshold : ℕ
  pub open_duration : ℕ
  pub half_open_max_requests : ℕ
  pub state : CircuitBreakerState

-- `CircuitBreakerState()`
abbrev pub initial_state : CircuitBreakerState
initial_state = record {
  state = closed;
  consecutive_failures = 0;
  opened_at = none;
  half_open_probe_in_flight = false;
}

-- `CircuitBreaker(failure_threshold=…, open_duration_seconds=…, half_open_max_requests=…)`
abbrev pub new_breaker : ℕ → ℕ → ℕ → CircuitBreaker
new_breaker threshold duration probes = record {
  failure_threshold = threshold;
  open_duration = duration;
  half_open_max_requests = probes;
  state = initial_state;
}

-- `_transition_to_open`, at the clock reading `now`
unfoldable pub transition_to_open : ℕ → CircuitBreaker → CircuitBreaker
transition_to_open now cb = record cb {
  state = record {
    state = opened;
    consecutive_failures = cb.state.consecutive_failures;
    opened_at = some now;
    half_open_probe_in_flight = false;
  };
}

-- `_transition_to_half_open`
unfoldable pub transition_to_half_open : CircuitBreaker → CircuitBreaker
transition_to_half_open cb = record cb {
  state = record {
    state = half_open;
    consecutive_failures = cb.state.consecutive_failures;
    opened_at = cb.state.opened_at;
    half_open_probe_in_flight = false;
  };
}

-- `_transition_to_closed`
unfoldable pub transition_to_closed : CircuitBreaker → CircuitBreaker
transition_to_closed cb = record cb {
  state = record {
    state = closed;
    consecutive_failures = 0;
    opened_at = none;
    half_open_probe_in_flight = false;
  };
}

-- `self.state.half_open_probe_in_flight = True`
unfoldable pub start_probe : CircuitBreaker → CircuitBreaker
start_probe cb = record cb {
  state = record {
    state = cb.state.state;
    consecutive_failures = cb.state.consecutive_failures;
    opened_at = cb.state.opened_at;
    half_open_probe_in_flight = true;
  };
}

-- `self.state.opened_at is not None and (self._clock() - self.state.opened_at) >= …`
unfoldable pub cooled_down : ℕ → CircuitBreaker → Bool
cooled_down now cb = elim cb.state.opened_at [
  | none ↦ false
  | some since ↦ leb (since + cb.open_duration) now
]

-- `allow_request`, with its own recursive call, on fuel: `none` means that the fuel ran out.
unfoldable pub allow_request_within : ℕ → ℕ → CircuitBreaker → Option (Bool × CircuitBreaker)
unfolding cooled_down transition_to_half_open start_probe
allow_request_within zero now cb = none
allow_request_within (suc fuel) now cb =
    let again = allow_request_within fuel now (transition_to_half_open cb) in
    elim cb.state.state [
      | closed ↦ some (true, cb)
      | opened ↦ if cooled_down now cb then again else some (false, cb)
      | half_open ↦
          if cb.state.half_open_probe_in_flight
          then some (false, cb)
          else some (true, start_probe cb)
    ]

-- `allow_request` with that call written out: the answer, and the breaker after it.
unfoldable pub allow_request : ℕ → CircuitBreaker → Bool × CircuitBreaker
unfolding cooled_down transition_to_half_open start_probe
allow_request now cb = elim cb.state.state [
  | closed ↦ (true, cb)
  | opened ↦
      if cooled_down now cb then (true, start_probe (transition_to_half_open cb)) else (false, cb)
  | half_open ↦ if cb.state.half_open_probe_in_flight then (false, cb) else (true, start_probe cb)
]

unfoldable pub record_success : CircuitBreaker → CircuitBreaker
unfolding transition_to_closed
record_success cb = elim cb.state.state [
  | half_open ↦ transition_to_closed cb
  | _ ↦ record cb {
    state = record {
      state = closed;
      consecutive_failures = 0;
      opened_at = cb.state.opened_at;
      half_open_probe_in_flight = cb.state.half_open_probe_in_flight;
    };
  }
]

-- `self.state.consecutive_failures += 1`
unfoldable pub count_failure : CircuitBreaker → CircuitBreaker
count_failure cb = record cb {
  state = record {
    state = cb.state.state;
    consecutive_failures = cb.state.consecutive_failures + 1;
    opened_at = cb.state.opened_at;
    half_open_probe_in_flight = cb.state.half_open_probe_in_flight;
  };
}

unfoldable pub record_failure : ℕ → CircuitBreaker → CircuitBreaker
unfolding transition_to_open count_failure
record_failure now cb = elim cb.state.state [
  | half_open ↦ transition_to_open now cb
  | _ ↦
      if leb cb.failure_threshold (cb.state.consecutive_failures + 1)
      then transition_to_open now (count_failure cb)
      else count_failure cb
]

-- The three calls that a client makes, each at a time.
pub data Call : Type 0 where
  asks succeeds fails : ℕ → Call

unfoldable pub call : CircuitBreaker → Call → CircuitBreaker
unfolding allow_request record_success record_failure
call cb (asks now) = (allow_request now cb).1
call cb (succeeds now) = record_success cb
call cb (fails now) = record_failure now cb

unfoldable pub run : CircuitBreaker → List Call → CircuitBreaker
run cb [] = cb
run cb (c ∷ cs) = run (call cb c) cs
