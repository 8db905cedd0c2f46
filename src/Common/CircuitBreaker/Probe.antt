-- ===== src/Common/CircuitBreaker/Probe.antt =====
-- The cooldown, and the single probe that follows it.
use eventmesh.Base.{
  ℕ, ◌+◌, ◌≤◌, ◌<◌, ◌≡◌, refl, ◌∙◌, ap, Bool, true, false, some, List, [], ◌∷◌, map, arith,
}
use eventmesh.Common.Enums.{closed, opened, half_open}
use eventmesh.Common.CircuitBreaker.{
  CircuitBreaker, Call, allow_request, record_success, record_failure, call, run,
}

-- Before its cooldown has passed, an OPEN breaker refuses, and stays as it is.
pub allow_request_refuses :
    (now : ℕ) (cb : CircuitBreaker) {since : ℕ}
    → cb.state.state ≡ opened
    → cb.state.opened_at ≡ some since
    → now < since + cb.open_duration
    → allow_request now cb ≡ (false, cb)
unfolding allow_request
allow_request_refuses now cb e s h = ground arith

allow_request-probing :
    (now : ℕ) (cb : CircuitBreaker)
    → cb.state.state ≡ half_open
    → cb.state.half_open_probe_in_flight ≡ true
    → allow_request now cb ≡ (false, cb)
unfolding allow_request
allow_request-probing now cb e p = ground arith

-- While a probe is in flight a HALF_OPEN breaker refuses whoever asks, as often as they ask.
run-asks_probing :
    (cb : CircuitBreaker) (times : List ℕ)
    → cb.state.state ≡ half_open
    → cb.state.half_open_probe_in_flight ≡ true
    → run cb (map Call.asks times) ≡ cb
unfolding run call
run-asks_probing cb [] e p = refl
run-asks_probing cb (t ∷ ts) e p =
    ap (λ (r : Bool × CircuitBreaker). run r.1 (map Call.asks ts)) (allow_request-probing t cb e p)
    ∙ run-asks_probing cb ts e p

allow_request-cooled :
    (now : ℕ) (cb : CircuitBreaker) {since : ℕ}
    → cb.state.state ≡ opened
    → cb.state.opened_at ≡ some since
    → since + cb.open_duration ≤ now
    → let (answer, probing) = allow_request now cb in
      (answer ≡ true)
      × (probing.state.state ≡ half_open)
      × (probing.state.half_open_probe_in_flight ≡ true)
unfolding allow_request
allow_request-cooled now cb e s h = ground arith

-- Once the cooldown has passed, an OPEN breaker admits one request, and becomes HALF_OPEN; after
-- that, and after any number of further requests at any times, the next one is refused.
pub allow_request_single_probe :
    (now : ℕ) (cb : CircuitBreaker) (times : List ℕ) (later : ℕ) {since : ℕ}
    → cb.state.state ≡ opened
    → cb.state.opened_at ≡ some since
    → since + cb.open_duration ≤ now
    → let (answer, probing) = allow_request now cb in
      (answer ≡ true)
      × (probing.state.state ≡ half_open)
      × ((allow_request later (run probing (map Call.asks times))).0 ≡ false)
allow_request_single_probe now cb times later e s h =
    let (a, b, c) = allow_request-cooled now cb e s h in
    let quiet = run-asks_probing (allow_request now cb).1 times b c in
    (a, b, rw (quiet, allow_request-probing later (allow_request now cb).1 b c) refl)

-- The outcome of a probe decides: a success closes the breaker with its count cleared, a failure
-- opens it again, with a cooldown that starts at the failure.
pub probe_outcome :
    (cb : CircuitBreaker) (now : ℕ)
    → cb.state.state ≡ half_open
    → let won = record_success cb in
      let lost = record_failure now cb in
      (won.state.state ≡ closed)
      × (won.state.consecutive_failures ≡ 0)
      × (lost.state.state ≡ opened)
      × (lost.state.opened_at ≡ some now)
      × ((later : ℕ) → later < now + cb.open_duration → allow_request later lost ≡ (false, lost))
unfolding record_success record_failure allow_request
probe_outcome cb now e = ground arith
