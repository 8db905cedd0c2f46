-- ===== src/Common/Retry/Examples.antt =====
-- The policies at concrete inputs; the exponential one is the default of the settings.
use eventmesh.Base.{◌≡◌, refl, some}
use eventmesh.Base.Int.{ℤ}
use eventmesh.Common.Retry.{ExponentialBackoffPolicy, exponential_delay, jitter_low, raw_delay}

abbrev standard : ExponentialBackoffPolicy
standard = record { base = 1000; max_delay = 32000; max_attempts = 6; jitter_ratio = 200 }

abbrev lowest : ℤ → ℤ → ℤ
lowest low high = low

third_delay : exponential_delay standard lowest 3 ≡ some 3_200_000
unfolding exponential_delay jitter_low raw_delay
third_delay = refl
