-- ===== src/Common/Classify.antt =====
-- packages/common/eventmesh_common/classify.py
pub mod Table
mod Examples
use eventmesh.Base.{ℕ, Bool, ◌&&◌, Option, none, some, leb, ltb, any, ◌==◌, if◌then◌else◌}
use eventmesh.Common.Enums.{permanent_4xx, retryable_4xx}

pub data Outcome : Type 0 where
  success retry permanent_failure : Outcome

-- The texts of `reason`, by their format and the number in it.
pub data Reason : Type 0 where
  request_timed_out connection_failed no_response : Reason
  http redirect_not_followed treated_as_retryable treated_as_permanent undeclared_4xx : ℕ → Reason
  server_error unexpected_status : ℕ → Reason

pub record ClassificationResult : Type 0 where
  pub outcome : Outcome
  pub reason : Reason

-- `ClassificationResult(outcome, reason)`
abbrev pub result : Outcome → Reason → ClassificationResult
result o r = record { outcome = o; reason = r }

-- `low <= status_code < high`
abbrev pub within : ℕ → ℕ → ℕ → Bool
within low high status_code = leb low status_code && ltb status_code high

-- The tests on a status code that was received.
unfoldable pub classify_status : ℕ → ClassificationResult
classify_status s =
    if within 200 300 s
    then result Outcome.success (Reason.http s)
    else if within 300 400 s
    then result Outcome.permanent_failure (Reason.redirect_not_followed s)
    else if within 400 500 s
    then (if any (λ x. s == x) retryable_4xx
        then result Outcome.retry (Reason.treated_as_retryable s)
        else if any (λ x. s == x) permanent_4xx
        then result Outcome.permanent_failure (Reason.treated_as_permanent s)
        else result Outcome.permanent_failure (Reason.undeclared_4xx s))
    else if within 500 600 s
    then result Outcome.retry (Reason.server_error s)
    else result Outcome.retry (Reason.unexpected_status s)

unfoldable pub classify_response : Option ℕ → Bool → Bool → ClassificationResult
classify_response status_code timed_out connection_error =
    if timed_out
    then result Outcome.retry Reason.request_timed_out
    else if connection_error
    then result Outcome.retry Reason.connection_failed
    else elim status_code [
      | none ↦ result Outcome.retry Reason.no_response
      | some s ↦ classify_status s
    ]
