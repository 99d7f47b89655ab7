-- ===== src/Delivery/Retry.antt =====
-- src/delivery/retry.ts: the retry schedule. Times are milliseconds. The model takes a multiplier
-- that is a whole number, a jitter fraction in hundredths, and a random number as the numerator
-- over 2^32 that `defaultRandFloat` draws.
pub mod Bounds
use semp_ts.Common.{
  ℕ, zero, suc, ◌+◌, ◌-◌, ◌*◌, ◌/◌, String, Bool, true, false, ◌||◌, Option, none, some, Fallible,
  ok, throw, throw_if, ◌>>=◌, ◌>>◌, leb, ltb, str_eq, ◌==◌, if◌then◌else◌, max, min,
}

abbrev pub min_retry_initial_interval_ms : ℕ
min_retry_initial_interval_ms = 60000

abbrev pub min_retry_multiplier : ℕ
min_retry_multiplier = 2

abbrev pub max_retry_interval_ms : ℕ
max_retry_interval_ms = 6 * 60 * 60 * 1000

-- In hundredths.
abbrev pub min_retry_jitter_fraction : ℕ
min_retry_jitter_fraction = 10

abbrev pub min_jitter_floor_ms : ℕ
min_jitter_floor_ms = 30000

abbrev pub default_max_retry_horizon_ms : ℕ
default_max_retry_horizon_ms = 72 * 60 * 60 * 1000

abbrev pub max_retry_horizon_cap_ms : ℕ
max_retry_horizon_cap_ms = 7 * 24 * 60 * 60 * 1000

pub record RetryConfig : Type 0 where
  pub initial_interval_ms : Option ℕ
  pub multiplier : Option ℕ
  pub max_interval_ms : Option ℕ
  pub jitter_fraction : Option ℕ

pub record EffectiveRetryConfig : Type 0 where
  pub initial_interval_ms : ℕ
  pub multiplier : ℕ
  pub max_interval_ms : ℕ
  pub jitter_fraction : ℕ

-- x ?? 0
abbrev pub or_zero : Option ℕ → ℕ
or_zero none = 0
or_zero (some n) = n

unfoldable pub sanitize_retry : RetryConfig → EffectiveRetryConfig
sanitize_retry cfg =
    let longest = or_zero cfg.max_interval_ms in
    record {
      initial_interval_ms = max (or_zero cfg.initial_interval_ms) min_retry_initial_interval_ms;
      multiplier = max (or_zero cfg.multiplier) min_retry_multiplier;
      max_interval_ms =
          if longest == 0 || ltb max_retry_interval_ms longest
          then max_retry_interval_ms
          else longest;
      jitter_fraction = max (or_zero cfg.jitter_fraction) min_retry_jitter_fraction;
    }

-- The loop of `baseIntervalMs`, by the rounds that are left.
unfoldable pub grow : ℕ → EffectiveRetryConfig → ℕ → ℕ
grow zero eff d = d
grow (suc rounds) eff d =
    let next = d * eff.multiplier in
    let rest = grow rounds eff next in
    if ltb eff.max_interval_ms next then eff.max_interval_ms else rest

unfoldable pub base_interval_ms : RetryConfig → ℕ → ℕ
unfolding grow
base_interval_ms cfg attempt =
    let eff = sanitize_retry cfg in
    min (grow attempt eff eff.initial_interval_ms) eff.max_interval_ms

pub data RetryError : Type 0 where
  non_positive_base random_out_of_range : RetryError

-- 2^32, over which a random number is drawn.
abbrev pub random_range : ℕ
random_range = 4294967296

-- The product of floats under `Math.floor` is not exact: up to a jitter fraction of 10000 its error
-- is far below 1, so that its floor is that of the exact product, one less, or one more.
pub data Rounding : Type 0 where
  as_exact one_less one_more : Rounding

-- A random number, and what the rounding makes of the product that it goes into.
pub record Draw : Type 0 where
  pub numerator : ℕ
  pub rounding : Rounding

abbrev pub rounded : Rounding → ℕ → ℕ
rounded as_exact ms = ms
rounded one_less ms = ms - 1
rounded one_more ms = ms + 1

-- Math.floor(baseMs * (1 - j + 2 * j * r)); where it is negative, as it may be with a fraction above
-- 1, the floor of the interval takes over from the 0 or 1 that stands here.
unfoldable pub jittered : ℕ → ℕ → Draw → ℕ
jittered j base r =
    rounded r.rounding
      (base * (100 * random_range + 2 * j * r.numerator - j * random_range) / (100 * random_range))

unfoldable pub jitter_interval_ms : RetryConfig → ℕ → Draw → Fallible RetryError ℕ
unfolding jittered
jitter_interval_ms cfg base r = do
  throw_if (base == 0) non_positive_base
  throw_if (leb random_range r.numerator) random_out_of_range
  ok (max (jittered (sanitize_retry cfg).jitter_fraction base r) min_jitter_floor_ms)

unfoldable pub next_attempt_at : RetryConfig → ℕ → ℕ → Draw → Fallible RetryError ℕ
next_attempt_at cfg previous attempt r = do
  interval ← jitter_interval_ms cfg (base_interval_ms cfg attempt) r
  ok (previous + interval)

unfoldable pub is_recoverable_reason : String → Bool
is_recoverable_reason code =
    str_eq code "handshake_invalid"
    || str_eq code "handshake_expired"
    || str_eq code "no_session"
    || str_eq code "server_unavailable"
    || str_eq code "rate_limited"
    || str_eq code "server_at_capacity"

-- The horizon that `effectiveDeadline` applies.
unfoldable pub effective_horizon : Option ℕ → ℕ
effective_horizon horizon_ms =
    let h = or_zero horizon_ms in
    let h' = if h == 0 then default_max_retry_horizon_ms else h in
    if ltb max_retry_horizon_cap_ms h' then max_retry_horizon_cap_ms else h'

unfoldable pub effective_deadline : Option ℕ → ℕ → Option ℕ → ℕ
unfolding effective_horizon
effective_deadline postmark_expires queued_at horizon_ms =
    let horizon_deadline = queued_at + effective_horizon horizon_ms in
    elim postmark_expires [
      | none ↦ horizon_deadline
      | some expires ↦ if ltb expires horizon_deadline then expires else horizon_deadline
    ]
