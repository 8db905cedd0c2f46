-- ===== src/Common/Retry/Delays.antt =====
-- When a policy gives up, and how long it waits before that.
use native.Mathlib.Nat.{two-pow-succ, mul-le-mul_right}
use eventmesh.Base.{ℕ, suc, ◌+◌, ◌-◌, ◌*◌, ◌^◌, ◌≤◌, ◌<◌, min, ◌≡◌, ◌↔◌, none, some, arith}
use eventmesh.Base.Int.{ℤ, ◌≤ℤ◌}
use eventmesh.Common.Retry.{
  ExponentialBackoffPolicy, RetryPolicy, max_attempts, jitter_low, jitter_high, raw_delay,
  exponential_delay, next_delay,
}

-- What the code relies on of `random.Random.uniform`: the draw lies between its bounds.
abbrev pub Uniform : (ℤ → ℤ → ℤ) → Type 0
Uniform draw = (low high : ℤ) → low ≤ℤ high → (low ≤ℤ draw low high) × (draw low high ≤ℤ high)

-- Whatever the class of the policy and the draw, there is no further attempt exactly when the
-- attempt that failed was the last one allowed, or a later one.
pub next_delay-none_iff :
    (p : RetryPolicy) (draw : ℤ → ℤ → ℤ) (attempt : ℕ)
    → (next_delay p draw attempt ≡ none) ↔ (max_attempts p ≤ attempt)
unfolding next_delay max_attempts
next_delay-none_iff (RetryPolicy.exponential p) draw attempt = ground arith
next_delay-none_iff (RetryPolicy.fixed p) draw attempt = ground arith
next_delay-none_iff (RetryPolicy.linear p) draw attempt = ground arith

raw_delay-le : (p : ExponentialBackoffPolicy) (attempt : ℕ) → raw_delay p attempt ≤ p.max_delay
unfolding raw_delay
raw_delay-le p attempt = omega arith

raw_delay-suc :
    (p : ExponentialBackoffPolicy) (attempt : ℕ)
    → raw_delay p (suc (suc attempt)) ≡ min p.max_delay (2 * raw_delay p (suc attempt))
unfolding raw_delay
raw_delay-suc p attempt =
    let e1 : suc (suc attempt) - 1 ≡ suc attempt = omega arith in
    let e2 : suc attempt - 1 ≡ attempt = omega arith in
    rw (e1, e2, two-pow-succ attempt) (omega arith)

-- Without jitter, and while a further attempt is allowed, each delay is twice the one before, up
-- to the cap.
pub exponential_delay_doubles :
    (p : ExponentialBackoffPolicy) (draw : ℤ → ℤ → ℤ) (attempt : ℕ)
    → p.jitter_ratio ≡ 0
    → suc (suc attempt) < p.max_attempts
    → (d : ℕ) × (exponential_delay p draw (suc attempt) ≡ some d)
      × (exponential_delay p draw (suc (suc attempt)) ≡ some (min (p.max_delay * 1000) (2 * d)))
unfolding exponential_delay
exponential_delay_doubles p draw attempt e h =
    (raw_delay p (suc attempt) * 1000, ground arith, ground (arith, raw_delay-suc p attempt))

raw_delay_capped :
    (p : ExponentialBackoffPolicy) (attempt : ℕ)
    → raw_delay p attempt * (1000 + p.jitter_ratio) ≤ p.max_delay * (1000 + p.jitter_ratio)
raw_delay_capped p attempt = mul-le-mul_right (1000 + p.jitter_ratio) (raw_delay-le p attempt)

-- If the random draw lies within its bounds, a delay that the policy gives lies within the jitter
-- ratio around the capped exponential delay, and exceeds the cap by no more than that ratio of it.
pub exponential_delay_bounds :
    (p : ExponentialBackoffPolicy) (draw : ℤ → ℤ → ℤ) (attempt : ℕ) {d : ℕ}
    → Uniform draw
    → exponential_delay p draw attempt ≡ some d
    → let raw = min p.max_delay (p.base * 2 ^ (attempt - 1)) in
      (raw * 1000 ≤ d + raw * p.jitter_ratio)
      × (d ≤ raw * 1000 + raw * p.jitter_ratio)
      × (d ≤ p.max_delay * (1000 + p.jitter_ratio))
unfolding exponential_delay raw_delay jitter_low jitter_high
exponential_delay_bounds p draw attempt u e = ground (
  arith,
  u (jitter_low p (raw_delay p attempt)) (jitter_high p (raw_delay p attempt)),
  raw_delay_capped p attempt,
)
