-- ===== src/Clockskew.antt =====
-- src/clockskew/index.ts: tiered clock-skew tolerance. A `Date` is its time in milliseconds since
-- the epoch; what a check returns is whether it returns an error.
use semp_ts.Common.{ℕ, ◌+◌, ◌-◌, ◌*◌, Option, none, some, leb, ltb, if◌then◌else◌}

pub record Tolerance : Type 0 where
  pub forward_ms : ℕ
  pub grace_ms : ℕ

unfoldable pub default_tolerance : Tolerance
default_tolerance = record { forward_ms = 15 * 60 * 1000; grace_ms = 15 * 60 * 1000 }

unfoldable pub strict_tolerance : Tolerance
strict_tolerance = record { forward_ms = 5 * 60 * 1000; grace_ms = 0 }

-- The `Error` that a check returns carries the timestamp, the tolerance and the clock.
pub data SkewError : Type 0 where
  too_far_ahead too_long_ago : ℕ → ℕ → ℕ → SkewError

-- `t - now` is computed where `now < t`, so the truncated difference is exact.
unfoldable pub check_future_timestamp : ℕ → ℕ → Tolerance → Option SkewError
check_future_timestamp t now tol =
    if leb t now
    then none
    else if ltb tol.forward_ms (t - now)
    then some (too_far_ahead t tol.forward_ms now)
    else none

unfoldable pub check_expiry : ℕ → ℕ → Tolerance → Option SkewError
check_expiry expires_at now tol =
    if leb now (expires_at + tol.grace_ms)
    then none
    else some (too_long_ago expires_at tol.grace_ms now)
