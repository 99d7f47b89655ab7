-- ===== src/Delivery/Tests.antt =====
-- Runs of the retry schedule and of the scheduler at concrete inputs.
use semp_ts.Common.{
  All, ℕ, ◌+◌, ◌*◌, ◌-◌, ◌^◌, ◌≤◌, ◌<◌, String, ◌≡◌, refl, ◌⊎◌, true, false, none, some, [], ◌∷◌,
  arith, ok, max, min,
}
use semp_ts.Delivery.Queue.{queued, delivered, Outcome, QueueState, is_terminal_state, set_terminal}
use semp_ts.Delivery.Retry.{
  Draw, one_less, sanitize_retry, base_interval_ms, jitter_interval_ms, min_jitter_floor_ms,
  effective_deadline, max_retry_horizon_cap_ms,
}
use semp_ts.Delivery.Retry.Bounds.{
  base_interval_closed, jitter_interval_bounds, effective_deadline_bounds,
}
use semp_ts.Delivery.Scheduler.Store.{due_records, key, find, get}
use semp_ts.Delivery.Scheduler.Store.Laws.{IsKeyed}
use semp_ts.Delivery.Scheduler.{
  tick_loop, AttemptResult, SchedulerConfig, Scheduler, TickResult, Environment, tick, tick_one,
  cancel, new_config, no_retry_config, no_result, note_attempt,
}
use semp_ts.Delivery.Scheduler.Steps.{IsNamed}
use semp_ts.Delivery.Scheduler.Codes.{HasNoCode, tick-HasNoCode}
use semp_ts.Delivery.Scheduler.Tick.{after_tick, tick-find}
use semp_ts.Delivery.Scheduler.Ends.{CancelSpec, cancel-CancelSpec, tick_one-overwrites}

abbrev config : SchedulerConfig
config = new_config none none true

abbrev waiting : QueueState
waiting = record {
  envelope_id = "env-1";
  recipient = "bob@b.example";
  state = queued;
  attempts = 0;
  last_attempt_at = none;
  last_outcome = none;
  last_reason_code = none;
  next_attempt_at = some 1000;
  deadline = 9000000;
  terminal_at = none;
}

abbrev answered : AttemptResult
answered = record { status = Outcome.delivered; reason_code = none; reason = none }

abbrev draw : Draw
draw = record { numerator = 7; rounding = one_less }

-- Every delivery succeeds, and nothing happens while it is awaited.
abbrev quiet : Environment
quiet = record { deliver = λ e r. some answered; random = λ e r. draw; meanwhile = λ e r s. s }

-- The pair is cancelled while its delivery is awaited.
abbrev canceling : Environment
canceling = record {
  deliver = λ e r. some answered;
  random = λ e r. draw;
  meanwhile = λ e r s. (cancel config 2000 e r s).0;
}

abbrev one : Scheduler
one = record { store = waiting ∷ []; events = []; tick_in_flight = false }

waiting-IsNamed : IsNamed waiting
waiting-IsNamed = record {
  envelope_named = λ e. absurd (decided e);
  recipient_named = λ e. absurd (decided' e);
}
  where
    decided : ◌≡◌ {A = String} "env-1" "" → ⊥
    decided e = cc

    decided' : ◌≡◌ {A = String} "bob@b.example" "" → ⊥
    decided' e = cc

one-IsKeyed : IsKeyed one.store
unfolding find
one-IsKeyed = (refl, tt)

base_interval_closed_example :
    let eff = sanitize_retry no_retry_config in
    base_interval_ms no_retry_config 3
    ≡ min (eff.initial_interval_ms * eff.multiplier ^ 3) eff.max_interval_ms
base_interval_closed_example = base_interval_closed no_retry_config 3

jitter_interval_bounds_example :
    let j = (sanitize_retry no_retry_config).jitter_fraction in
    let base = base_interval_ms no_retry_config 3 in
    (interval : ℕ) × (jitter_interval_ms no_retry_config base draw ≡ ok interval)
    × (min_jitter_floor_ms ≤ interval)
    × (base * (100 - j) ≤ 100 * interval + 199)
    × (100 * interval ≤ max (base * (100 + j) + 100) (100 * min_jitter_floor_ms))
jitter_interval_bounds_example = jitter_interval_bounds no_retry_config 3 draw (omega arith)

effective_deadline_bounds_example :
    let deadline = effective_deadline (some 5000000) 1000 none in
    (deadline ≤ 5000000)
    × (deadline ≤ 1000 + max_retry_horizon_cap_ms)
    × ((deadline ≡ 5000000) ⊎ (deadline ≡ effective_deadline none 1000 none))
    × (1000 < effective_deadline none 1000 none)
effective_deadline_bounds_example = effective_deadline_bounds 5000000 1000 none

tick-find_example :
    (s' : Scheduler) × (t : TickResult) × (tick config quiet 2000 one ≡ ok (s', t))
    × ((k : String) → find k s'.store ≡ after_tick config quiet 2000 (find k one.store))
    × IsKeyed s'.store
    × (s'.tick_in_flight ≡ false)
tick-find_example =
    tick-find config quiet 2000 one (λ e r s. refl) one-IsKeyed (waiting-IsNamed, tt) refl

cancel-CancelSpec_example :
    CancelSpec 2000 "bob@b.example" one
      (get "env-1" "bob@b.example" one.store)
      (cancel config 2000 "env-1" "bob@b.example" one)
cancel-CancelSpec_example =
    cancel-CancelSpec config 2000 "env-1" "bob@b.example" one (waiting-IsNamed, tt)

tick_one-overwrites_example :
    find (key waiting) (tick_one config canceling 2000 waiting one no_result).0.store
    ≡ some (set_terminal delivered 2000 (note_attempt 2000 answered waiting))
unfolding is_terminal_state
tick_one-overwrites_example =
    tick_one-overwrites config canceling 2000 waiting one no_result answered waiting-IsNamed refl
      (omega arith) refl refl

abbrev after_one : Scheduler × TickResult
after_one =
    tick_loop config quiet 2000 (due_records 2000 one.store) (record one { tick_in_flight = true })
      no_result

one-ticks :
    tick config quiet 2000 one ≡ ok (record after_one.0 { tick_in_flight = false }, after_one.1)
unfolding tick
one-ticks = refl

tick-HasNoCode_example : All HasNoCode (record after_one.0 { tick_in_flight = false }).events
tick-HasNoCode_example =
    tick-HasNoCode config quiet 2000 (λ e r s h. h) one
      (record after_one.0 { tick_in_flight = false }) after_one.1 one-ticks tt
