-- ===== src/Common/Classify/Table.antt =====
-- The classification against the documented table of status codes.
use eventmesh.Base.{ℕ, ◌≤◌, ◌<◌, ◌≡◌, ◌≢◌, ◌↔◌, Bool, false, Option, none, some, arith}
use eventmesh.Common.Classify.{Outcome, classify_status, classify_response}

-- A status code was received, and satisfies `P`.
abbrev pub Answered : (ℕ → Type 0) → Option ℕ → Type 0
Answered P none = ⊥
Answered P (some s) = P s

classify_status-success_iff :
    (s : ℕ) → ((classify_status s).outcome ≡ Outcome.success) ↔ ((200 ≤ s) × (s < 300))
unfolding classify_status
classify_status-success_iff s = ground arith

classify_status-permanent_iff :
    (s : ℕ)
    → ((classify_status s).outcome ≡ Outcome.permanent_failure)
      ↔ ((300 ≤ s) × (s < 500) × (s ≢ 408) × (s ≢ 409) × (s ≢ 425) × (s ≢ 429))
unfolding classify_status
classify_status-permanent_iff s = ground arith

classify_response-success_iff :
    (status : Option ℕ) (timed_out connection_error : Bool)
    → ((classify_response status timed_out connection_error).outcome ≡ Outcome.success) ↔ (
        (timed_out ≡ false)
        × (connection_error ≡ false)
        × Answered (λ s. (200 ≤ s) × (s < 300)) status)
unfolding classify_response
classify_response-success_iff none t c = ground arith
classify_response-success_iff (some s) t c = ground (arith, classify_status-success_iff s)

classify_response-permanent_iff :
    (status : Option ℕ) (timed_out connection_error : Bool)
    → ((classify_response status timed_out connection_error).outcome ≡ Outcome.permanent_failure)
      ↔ ((timed_out ≡ false)
          × (connection_error ≡ false)
          × Answered
              (λ s. (300 ≤ s) × (s < 500) × (s ≢ 408) × (s ≢ 409) × (s ≢ 425) × (s ≢ 429))
              status)
unfolding classify_response
classify_response-permanent_iff none t c = ground arith
classify_response-permanent_iff (some s) t c = ground (arith, classify_status-permanent_iff s)

-- The attempt succeeds exactly when an answer came, neither late nor through a broken connection,
-- with a status from 200 to 299. It fails for good exactly when an answer came, neither late nor
-- through a broken connection, with a redirect or a 4xx status other than 408, 409, 425 and 429.
pub classify_response_iff :
    (status : Option ℕ) (timed_out connection_error : Bool)
    → let o = (classify_response status timed_out connection_error).outcome in
      ((o ≡ Outcome.success) ↔ (
        (timed_out ≡ false)
        × (connection_error ≡ false)
        × Answered (λ s. (200 ≤ s) × (s < 300)) status))
      × ((o ≡ Outcome.permanent_failure) ↔ (
          (timed_out ≡ false)
          × (connection_error ≡ false)
          × Answered
              (λ s. (300 ≤ s) × (s < 500) × (s ≢ 408) × (s ≢ 409) × (s ≢ 425) × (s ≢ 429))
              status))
classify_response_iff status t c =
    (classify_response-success_iff status t c, classify_response-permanent_iff status t c)
