-- ===== src/Delivery/Retry/Bounds.antt =====
-- The retry schedule in closed form, and the bounds that it keeps.
use native.Mathlib.Nat.{pow-succ', pow-zero, mul_assoc, one-le-pow, div-mul-le_self, lt-div-mul-add}
use semp_ts.Common.{
  ℕ, zero, suc, ◌+◌, ◌-◌, ◌*◌, ◌/◌, ◌^◌, ◌≤◌, ◌<◌, ◌≡◌, sym, ap, ◌∙◌, false, inl, inr, arith, ltb,
  Bool-cases, ltb→lt, lt→leb, max, min, ok, ◌⊎◌, Option, none, some, ◌==◌,
}
use semp_ts.Delivery.Retry.{
  RetryConfig, EffectiveRetryConfig, sanitize_retry, grow, base_interval_ms, jittered, Rounding,
  as_exact, one_less, one_more, Draw, rounded, jitter_interval_ms, min_jitter_floor_ms,
  max_retry_interval_ms, random_range, effective_deadline, max_retry_horizon_cap_ms,
}

-- The configuration that the schedule works with.
pub sanitize_bounds :
    (cfg : RetryConfig)
    → let eff = sanitize_retry cfg in
      (60000 ≤ eff.initial_interval_ms)
      × (2 ≤ eff.multiplier)
      × (0 < eff.max_interval_ms)
      × (eff.max_interval_ms ≤ max_retry_interval_ms)
      × (10 ≤ eff.jitter_fraction)
unfolding sanitize_retry
sanitize_bounds cfg = (omega arith, omega arith, ground arith, ground arith, omega arith)

pow_shift : (d m r : ℕ) → d * m ^ suc r ≡ d * m * m ^ r
pow_shift d m r = ap (λ (t : ℕ). d * t) (pow-succ' m r) ∙ sym (mul_assoc d m (m ^ r))

scaled_le : (d p : ℕ) → 0 < p → d ≤ d * p
scaled_le d p h = grind arith

grow_closed :
    (rounds : ℕ) (eff : EffectiveRetryConfig) (d : ℕ)
    → 2 ≤ eff.multiplier
    → min (grow rounds eff d) eff.max_interval_ms
      ≡ min (d * eff.multiplier ^ rounds) eff.max_interval_ms
unfolding grow
grow_closed zero eff d h = let e : d * eff.multiplier ^ 0 ≡ d = simp pow-zero (omega arith) in rw e
grow_closed (suc rounds) eff d h =
    elim (Bool-cases (ltb eff.max_interval_ms (d * eff.multiplier))) [
      | inl over ↦
          let lt : eff.max_interval_ms < d * eff.multiplier = ltb→lt _ _ over in
          let positive : 0 < eff.multiplier ^ rounds =
            one-le-pow rounds eff.multiplier (omega arith) in
          let le = scaled_le (d * eff.multiplier) (eff.multiplier ^ rounds) positive in
          rw over (rw (pow_shift d eff.multiplier rounds) (omega arith))
      | inr under ↦ rw under (
          grow_closed rounds eff (d * eff.multiplier) h
          ∙ ap (λ (t : ℕ). min t eff.max_interval_ms) (sym (pow_shift d eff.multiplier rounds)))
    ]

-- The loop with its early exit computes the product, cut off at the longest interval:
-- base(attempt) = min(initial * multiplier^attempt, longest).
pub base_interval_closed :
    (cfg : RetryConfig) (attempt : ℕ)
    → let eff = sanitize_retry cfg in
      base_interval_ms cfg attempt
      ≡ min (eff.initial_interval_ms * eff.multiplier ^ attempt) eff.max_interval_ms
unfolding base_interval_ms
base_interval_closed cfg attempt =
    grow_closed attempt (sanitize_retry cfg) (sanitize_retry cfg).initial_interval_ms
      (sanitize_bounds cfg).1

pub base_interval_pos : (cfg : RetryConfig) (attempt : ℕ) → 0 < base_interval_ms cfg attempt
base_interval_pos cfg attempt =
    let eff = sanitize_retry cfg in
    let bounds = sanitize_bounds cfg in
    let positive = one-le-pow attempt eff.multiplier (omega arith) in
    let le = scaled_le eff.initial_interval_ms (eff.multiplier ^ attempt) positive in
    rw (base_interval_closed cfg attempt) (omega arith)

base_interval-le-longest :
    (cfg : RetryConfig) (attempt : ℕ) → base_interval_ms cfg attempt ≤ max_retry_interval_ms
base_interval-le-longest cfg attempt =
    rw (base_interval_closed cfg attempt) (omega (arith, sanitize_bounds cfg))

mul_mono : (a b c : ℕ) → b ≤ c → a * b ≤ a * c
mul_mono a b c h = grind arith

rounded_bounds : (r : Rounding) (ms : ℕ) → (rounded r ms ≤ ms + 1) × (ms ≤ rounded r ms + 1)
rounded_bounds as_exact ms = (omega arith, omega arith)
rounded_bounds one_less ms = (omega arith, omega arith)
rounded_bounds one_more ms = (omega arith, omega arith)

-- The factor of the jitter is at most 1 + j.
jittered_le :
    (j base : ℕ) (r : Draw)
    → r.numerator < random_range
    → 100 * jittered j base r ≤ base * (100 + j) + 100
unfolding jittered
jittered_le j base r h =
    let factor = 100 * random_range + 2 * j * r.numerator - j * random_range in
    let drawn : j * r.numerator ≤ j * random_range =
      mul_mono j r.numerator random_range (omega arith) in
    let bounded : factor ≤ random_range * (100 + j) = omega arith in
    let scaled : base * factor ≤ base * (random_range * (100 + j)) =
      mul_mono base factor (random_range * (100 + j)) bounded in
    omega (
      arith,
      div-mul-le_self (base * factor) (100 * random_range),
      rounded_bounds r.rounding (base * factor / (100 * random_range)),
    )

-- The factor is at least 1 - j.
jittered_ge : (j base : ℕ) (r : Draw) → base * (100 - j) ≤ 100 * jittered j base r + 199
unfolding jittered
jittered_ge j base r =
    let factor = 100 * random_range + 2 * j * r.numerator - j * random_range in
    let bounded : random_range * (100 - j) ≤ factor = omega arith in
    let scaled : base * (random_range * (100 - j)) ≤ base * factor =
      mul_mono base (random_range * (100 - j)) factor bounded in
    omega (
      arith,
      lt-div-mul-add {a = base * factor} {b = 100 * random_range} (omega arith),
      rounded_bounds r.rounding (base * factor / (100 * random_range)),
    )

-- Every draw of the random source in range gives an interval, however its product is rounded: at
-- least 30 seconds, at least the base interval less the jitter fraction, rounded down and less one
-- millisecond, and at most the base interval plus the fraction and one millisecond, if that is above
-- 30 seconds.
pub jitter_interval_bounds :
    (cfg : RetryConfig) (attempt : ℕ) (r : Draw)
    → r.numerator < random_range
    → let j = (sanitize_retry cfg).jitter_fraction in
      let base = base_interval_ms cfg attempt in
      (interval : ℕ) × (jitter_interval_ms cfg base r ≡ ok interval)
      × (min_jitter_floor_ms ≤ interval)
      × (base * (100 - j) ≤ 100 * interval + 199)
      × (100 * interval ≤ max (base * (100 + j) + 100) (100 * min_jitter_floor_ms))
unfolding jitter_interval_ms
jitter_interval_bounds cfg attempt r h =
    let j = (sanitize_retry cfg).jitter_fraction in
    let base = base_interval_ms cfg attempt in
    let positive : (base == 0) ≡ false = ground (arith, base_interval_pos cfg attempt) in
    (
      max (jittered j base r) min_jitter_floor_ms,
      rw (positive, lt→leb random_range r.numerator h),
      omega arith,
      omega (arith, jittered_ge j base r),
      omega (arith, jittered_le j base r h),
    )

-- A delivery deadline is never past the cap on the horizon, nor past the envelope's own expiry, and
-- it is one of the two.
pub effective_deadline_bounds :
    (expires queued_at : ℕ) (horizon : Option ℕ)
    → let deadline = effective_deadline (some expires) queued_at horizon in
      (deadline ≤ expires)
      × (deadline ≤ queued_at + max_retry_horizon_cap_ms)
      × ((deadline ≡ expires) ⊎ (deadline ≡ effective_deadline none queued_at horizon))
      × (queued_at < effective_deadline none queued_at horizon)
unfolding effective_deadline
effective_deadline_bounds expires queued_at horizon =
    (ground arith, ground arith, ground arith, ground arith)
