-- ===== src/Common/Retry.antt =====
-- packages/common/eventmesh_common/retry.py. The configured seconds are whole milliseconds here
-- and the jitter ratio is a whole number of thousandths, so that a delay is an exact number of
-- microseconds; the rounding of floats is not modelled. A ratio of 0 stands for every ratio that
-- is not positive. Attempt numbers begin at 1, as the class asks for.
pub mod Delays
mod Examples
use eventmesh.Base.{ℕ, ◌+◌, ◌-◌, ◌*◌, ◌^◌, min, Option, none, some, leb, if◌then◌else◌}
use eventmesh.Base.Int.{ℤ, pos, pos_part, sub_ℕ}

-- `ExponentialBackoffPolicy`, without its source of randomness
pub record ExponentialBackoffPolicy : Type 0 where
  pub base : ℕ
  pub max_delay : ℕ
  pub max_attempts : ℕ
  pub jitter_ratio : ℕ

pub record FixedBackoffPolicy : Type 0 where
  pub delay : ℕ
  pub max_attempts : ℕ

pub record LinearBackoffPolicy : Type 0 where
  pub base : ℕ
  pub max_attempts : ℕ

-- The subclasses of `RetryPolicy`.
pub data RetryPolicy : Type 0 where
  exponential : ExponentialBackoffPolicy → RetryPolicy
  fixed : FixedBackoffPolicy → RetryPolicy
  linear : LinearBackoffPolicy → RetryPolicy

unfoldable pub max_attempts : RetryPolicy → ℕ
max_attempts (RetryPolicy.exponential p) = p.max_attempts
max_attempts (RetryPolicy.fixed p) = p.max_attempts
max_attempts (RetryPolicy.linear p) = p.max_attempts

-- `raw`, in milliseconds
unfoldable pub raw_delay : ExponentialBackoffPolicy → ℕ → ℕ
raw_delay p attempt_number = min p.max_delay (p.base * 2 ^ (attempt_number - 1))

-- `low` and `high`, in microseconds
unfoldable pub jitter_low : ExponentialBackoffPolicy → ℕ → ℤ
jitter_low p raw = sub_ℕ (raw * 1000) (raw * p.jitter_ratio)

unfoldable pub jitter_high : ExponentialBackoffPolicy → ℕ → ℤ
jitter_high p raw = pos (raw * 1000 + raw * p.jitter_ratio)

-- `ExponentialBackoffPolicy.next_delay_seconds`; `uniform` is the draw of `self._rand`.
unfoldable pub exponential_delay : ExponentialBackoffPolicy → (ℤ → ℤ → ℤ) → ℕ → Option ℕ
exponential_delay p uniform attempt_number =
    let raw = raw_delay p attempt_number in
    if leb p.max_attempts attempt_number
    then none
    else if leb p.jitter_ratio 0
    then some (raw * 1000)
    else some (pos_part (uniform (jitter_low p raw) (jitter_high p raw)))

-- `FixedBackoffPolicy.next_delay_seconds`
unfoldable pub fixed_delay : FixedBackoffPolicy → ℕ → Option ℕ
fixed_delay p attempt_number =
    if leb p.max_attempts attempt_number then none else some (p.delay * 1000)

-- `LinearBackoffPolicy.next_delay_seconds`
unfoldable pub linear_delay : LinearBackoffPolicy → ℕ → Option ℕ
linear_delay p attempt_number =
    if leb p.max_attempts attempt_number then none else some (p.base * attempt_number * 1000)

-- `next_delay_seconds`, by the class of the policy: the delay in microseconds
unfoldable pub next_delay : RetryPolicy → (ℤ → ℤ → ℤ) → ℕ → Option ℕ
unfolding exponential_delay fixed_delay linear_delay
next_delay (RetryPolicy.exponential p) uniform attempt_number =
    exponential_delay p uniform attempt_number
next_delay (RetryPolicy.fixed p) uniform attempt_number = fixed_delay p attempt_number
next_delay (RetryPolicy.linear p) uniform attempt_number = linear_delay p attempt_number
