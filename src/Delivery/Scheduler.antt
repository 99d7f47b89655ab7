-- ===== src/Delivery/Scheduler.antt =====
-- src/delivery/scheduler.ts: the sending side's scheduler over its in-memory store. A method takes
-- the clock's reading and the scheduler's state, and returns the new state with its result. The
-- store keeps a `Map`'s order of insertion.
pub mod Store
pub mod Steps
pub mod Tick
pub mod Ends
pub mod Codes
use semp_ts.Common.{
  ℕ, ◌+◌, ◌-◌, ◌*◌, String, Bool, true, false, Option, none, some, List, [], ◌∷◌, ◌++◌, Fallible,
  ok, throw, leb, ltb, str_eq, if◌then◌else◌, length,
}
use semp_ts.Delivery.Queue.{
  RecordState, queued, expired, canceled, Outcome, QueueState, is_terminal_state, set_terminal,
  iso_second,
}
use semp_ts.Delivery.Retry.{
  RetryConfig, Draw, sanitize_retry, effective_deadline, is_recoverable_reason, next_attempt_at,
}
use semp_ts.Delivery.Submission.{
  EventStatus, EventOptions, SubmissionEvent, SubmissionError, new_submission_event,
}
use semp_ts.Delivery.Scheduler.Store.{
  Records, put, get, due_records, list_terminal_older_than, delete, select,
}

pub record AttemptResult : Type 0 where
  pub status : Outcome
  pub reason_code : Option String
  pub reason : Option String

-- `retry` is the configuration after `sanitizeRetry` of the constructor.
pub record SchedulerConfig : Type 0 where
  pub retry : RetryConfig
  pub horizon_ms : ℕ
  pub has_sink : Bool

pub data SchedulerError : Type 0 where
  tick_in_progress unknown_record already_exists deliver_failed : SchedulerError
  empty_envelope_id empty_recipient : SchedulerError
  bad_event : SubmissionError → SchedulerError

-- `events` are the calls of the event sink, oldest first.
pub record Scheduler : Type 0 where
  pub store : Records
  pub events : List SubmissionEvent
  pub tick_in_flight : Bool

abbrev pub no_retry_config : RetryConfig
no_retry_config = record {
  initial_interval_ms = none;
  multiplier = none;
  max_interval_ms = none;
  jitter_fraction = none;
}

-- `cfg.maxRetryHorizonMs ?? 72 * 3_600_000`, and the retry policy sanitized.
unfoldable pub new_config : Option RetryConfig → Option ℕ → Bool → SchedulerConfig
new_config retry max_retry_horizon_ms has_sink =
    let eff = sanitize_retry (elim retry [ some cfg ↦ cfg | none ↦ no_retry_config ]) in
    record {
      retry = record {
        initial_interval_ms = some eff.initial_interval_ms;
        multiplier = some eff.multiplier;
        max_interval_ms = some eff.max_interval_ms;
        jitter_fraction = some eff.jitter_fraction;
      };
      horizon_ms = elim max_retry_horizon_ms [ some h ↦ h | none ↦ 72 * 3600000 ];
      has_sink = has_sink;
    }

unfoldable pub new_record : SchedulerConfig → ℕ → String → String → ℕ → QueueState
new_record cfg now envelope_id recipient postmark_expires = record {
  envelope_id = envelope_id;
  recipient = recipient;
  state = queued;
  attempts = 0;
  last_attempt_at = none;
  last_outcome = none;
  last_reason_code = none;
  next_attempt_at = some (iso_second now);
  deadline = iso_second (effective_deadline (some postmark_expires) now (some cfg.horizon_ms));
  terminal_at = none;
}

unfoldable pub enqueue :
    SchedulerConfig → ℕ → String → String → ℕ → Scheduler → Fallible SchedulerError Scheduler
unfolding new_record
enqueue cfg now envelope_id recipient postmark_expires s =
    if str_eq envelope_id ""
    then throw empty_envelope_id
    else if str_eq recipient ""
    then throw empty_recipient
    else elim (get envelope_id recipient s.store) [
      | some existing ↦ throw already_exists
      | none ↦ ok (record s {
        store = put (new_record cfg now envelope_id recipient postmark_expires) s.store;
      })
    ]

abbrev pub event_status : RecordState → EventStatus
event_status RecordState.delivered = EventStatus.delivered
event_status _ = EventStatus.rejected

-- A reason that is set and not empty.
abbrev pub non_empty : Option String → Option String
non_empty none = none
non_empty (some text) = if str_eq text "" then none else some text

abbrev pub at_or : Option ℕ → ℕ → ℕ
at_or none now = now
at_or (some t) now = t

-- A property of `opts` that is set where there is a text for it.
abbrev pub property : String → Option String → List (String × String)
property name none = []
property name (some text) = (name, text) ∷ []

-- The reason code is set as `opts.reasonCode`.
abbrev pub event_options : ℕ → QueueState → Option String → EventOptions
event_options now q reason = record {
  texts = property "reasonCode" q.last_reason_code ++ property "reason" (non_empty reason);
  now = at_or q.terminal_at now;
}

unfoldable pub emit :
    SchedulerConfig
    → ℕ
    → QueueState
    → Option String
    → Fallible SchedulerError (List SubmissionEvent)
emit cfg now q reason =
    if cfg.has_sink
    then elim (new_submission_event q.envelope_id q.recipient (event_status q.state)
        (event_options now q reason)) [ ok ev ↦ ok (ev ∷ []) | throw e ↦ throw (bad_event e) ]
    else ok []

-- A record after a step, and the reasons of the events that the step emits.
abbrev pub Transition : Type 0
Transition = QueueState × List (Option String)

unfoldable pub transition_terminal : RecordState → ℕ → Option String → QueueState → Transition
unfolding set_terminal
transition_terminal state now reason q =
    if is_terminal_state q.state then (q, []) else (set_terminal state now q, reason ∷ [])

unfoldable pub transition_expired : ℕ → QueueState → Transition
unfolding set_terminal
transition_expired now q =
    if is_terminal_state q.state then (q, []) else (set_terminal expired now q, none ∷ [])

-- The record with the attempt's outcome on it.
unfoldable pub note_attempt : ℕ → AttemptResult → QueueState → QueueState
note_attempt now res q = record q {
  attempts = q.attempts + 1;
  last_attempt_at = some (iso_second now);
  last_outcome = some res.status;
  last_reason_code = non_empty res.reason_code;
}

-- The catch of `runAttempt`: a second later.
abbrev pub or_second_later {ℓ} : {E : Type ℓ} → ℕ → Fallible E ℕ → ℕ
or_second_later now (ok next) = next
or_second_later now (throw e) = now + 1000

-- The next attempt, or the end where it would fall past the deadline.
unfoldable pub reschedule : SchedulerConfig → ℕ → Draw → QueueState → Transition
unfolding transition_expired
reschedule cfg now r q =
    let next = or_second_later now (next_attempt_at cfg.retry now (q.attempts - 1) r) in
    if ltb q.deadline next
    then transition_expired now q
    else (record q { next_attempt_at = some (iso_second next) }, [])

abbrev pub code_of : Option String → String
code_of none = ""
code_of (some code) = code

-- What `runAttempt` does once `deliver` has answered; `r` is the random number that it draws.
unfoldable pub after_answer :
    SchedulerConfig → ℕ → Draw → AttemptResult → Outcome → QueueState → Transition
unfolding reschedule transition_terminal
after_answer cfg now r res Outcome.delivered q =
    transition_terminal RecordState.delivered now res.reason q
after_answer cfg now r res Outcome.rejected q =
    if is_recoverable_reason (code_of res.reason_code)
    then reschedule cfg now r q
    else transition_terminal RecordState.rejected now res.reason q
after_answer cfg now r res Outcome.silent q = reschedule cfg now r q

unfoldable pub run_attempt : SchedulerConfig → ℕ → Draw → AttemptResult → QueueState → Transition
unfolding after_answer note_attempt
run_attempt cfg now r res q = after_answer cfg now r res res.status (note_attempt now res q)

-- The calls of the sink for a step's reasons.
unfoldable pub emit_all :
    SchedulerConfig
    → ℕ
    → QueueState
    → List (Option String)
    → Fallible SchedulerError (List SubmissionEvent)
emit_all cfg now q [] = ok []
emit_all cfg now q (reason ∷ reasons) = elim (emit cfg now q reason) [
  | throw e ↦ throw e
  | ok evs ↦ elim (emit_all cfg now q reasons) [ throw e ↦ throw e | ok more ↦ ok (evs ++ more) ]
]

pub record TickResult : Type 0 where
  pub advanced : ℕ
  pub first_error : Option SchedulerError

abbrev pub keep_first : Option SchedulerError → SchedulerError → Option SchedulerError
keep_first none e = some e
keep_first (some first) e = some first

-- `put` after a step, unless the step threw.
unfoldable pub finish :
    SchedulerConfig → ℕ → Transition → Scheduler → TickResult → Scheduler × TickResult
finish cfg now (q, reasons) s t = elim (emit_all cfg now q reasons) [
  | throw e ↦ (s, record t { first_error = keep_first t.first_error e })
  | ok evs ↦ (
    record s { store = put q s.store; events = s.events ++ evs },
    record t { advanced = t.advanced + 1 },
  )
]

-- What the awaited calls bring in: the answer to a delivery (none where it throws), the random
-- number drawn for the next attempt, and what other calls do to the scheduler while the answer is
-- awaited.
pub record Environment : Type 0 where
  pub deliver : String → String → Option AttemptResult
  pub random : String → String → Draw
  pub meanwhile : String → String → Scheduler → Scheduler

-- The rest of a round once the answer is there, over the state that the wait has left.
unfoldable pub with_answer :
    SchedulerConfig
    → ℕ
    → Draw
    → QueueState
    → Scheduler
    → TickResult
    → Option AttemptResult
    → Scheduler × TickResult
with_answer cfg now r q s t none =
    (s, record t { first_error = keep_first t.first_error deliver_failed })
with_answer cfg now r q s t (some res) = finish cfg now (run_attempt cfg now r res q) s t

-- One round of the loop of `tick`; `q` is the copy that `dueRecords` made.
unfoldable pub tick_one :
    SchedulerConfig → Environment → ℕ → QueueState → Scheduler → TickResult → Scheduler × TickResult
unfolding with_answer
tick_one cfg env now q s t =
    if is_terminal_state q.state
    then (s, t)
    else if leb q.deadline now
    then finish cfg now (transition_expired now q) s t
    else with_answer cfg now (env.random q.envelope_id q.recipient) q
        (env.meanwhile q.envelope_id q.recipient s) t (env.deliver q.envelope_id q.recipient)

unfoldable pub tick_loop :
    SchedulerConfig → Environment → ℕ → Records → Scheduler → TickResult → Scheduler × TickResult
tick_loop cfg env now [] s t = (s, t)
tick_loop cfg env now (q ∷ qs) s t =
    let (s', t') = tick_one cfg env now q s t in tick_loop cfg env now qs s' t'

abbrev pub no_result : TickResult
no_result = record { advanced = 0; first_error = none }

unfoldable pub tick :
    SchedulerConfig → Environment → ℕ → Scheduler → Fallible SchedulerError (Scheduler × TickResult)
tick cfg env now s =
    if s.tick_in_flight
    then throw tick_in_progress
    else let started = record s { tick_in_flight = true } in
      let (s', t) = tick_loop cfg env now (due_records now s.store) started no_result in
      ok (record s' { tick_in_flight = false }, t)

-- `already` says that the record had ended before; the source puts it into a reason's text.
pub record CancelResult : Type 0 where
  pub recipient : String
  pub state : RecordState
  pub already : Bool

-- The record's end, its `put` and its event; where the event is refused the `put` has been made.
unfoldable pub end_canceled :
    SchedulerConfig → ℕ → String → QueueState → Scheduler → Scheduler × Option SchedulerError
unfolding set_terminal
end_canceled cfg now reason q s =
    let q' = set_terminal canceled now q in
    let stored = record s { store = put q' s.store } in
    elim (emit cfg now q' (some reason)) [
      | throw e ↦ (stored, some e)
      | ok evs ↦ (record stored { events = s.events ++ evs }, none)
    ]

-- The cancellation of a record that has not ended, with the result of its event.
abbrev pub canceled_result : String → Option SchedulerError → Fallible SchedulerError CancelResult
canceled_result recipient (some e) = throw e
canceled_result recipient none =
    ok (record { recipient = recipient; state = canceled; already = false })

-- What `cancel` does with the record that its lookup gives.
unfoldable pub cancel_record :
    SchedulerConfig
    → ℕ
    → String
    → Scheduler
    → Option QueueState
    → Scheduler × Fallible SchedulerError CancelResult
cancel_record cfg now recipient s none = (s, throw unknown_record)
cancel_record cfg now recipient s (some q) =
    let (s', refused) = end_canceled cfg now "client-initiated cancellation" q s in
    if is_terminal_state q.state
    then (s, ok (record { recipient = recipient; state = q.state; already = true }))
    else (s', canceled_result recipient refused)

-- Whether the call returns or throws, the state that it leaves comes with it.
unfoldable pub cancel :
    SchedulerConfig
    → ℕ
    → String
    → String
    → Scheduler
    → Scheduler × Fallible SchedulerError CancelResult
cancel cfg now envelope_id recipient s =
    cancel_record cfg now recipient s (get envelope_id recipient s.store)

unfoldable pub cancel_loop :
    SchedulerConfig
    → ℕ
    → Records
    → Scheduler
    → List CancelResult
    → Scheduler × Fallible SchedulerError (List CancelResult)
unfolding end_canceled
cancel_loop cfg now [] s out = (s, ok out)
cancel_loop cfg now (q ∷ qs) s out =
    let skipped =
      cancel_loop cfg now qs s
        (out ++ record { recipient = q.recipient; state = q.state; already = true } ∷ []) in
    let (s', refused) = end_canceled cfg now "client-initiated whole-envelope cancellation" q s in
    let ended =
      cancel_loop cfg now qs s'
        (out ++ record { recipient = q.recipient; state = canceled; already = false } ∷ []) in
    if is_terminal_state q.state
    then skipped
    else elim refused [ some e ↦ (s', throw e) | none ↦ ended ]

unfoldable pub cancel_envelope :
    SchedulerConfig
    → ℕ
    → String
    → Scheduler
    → Scheduler × Fallible SchedulerError (List CancelResult)
unfolding cancel_loop
cancel_envelope cfg now envelope_id s =
    if str_eq envelope_id ""
    then (s, throw empty_envelope_id)
    else cancel_loop cfg now
        (select (λ q. str_eq q.envelope_id envelope_id)
          (due_records (now + cfg.horizon_ms * 2) s.store))
        s []

unfoldable pub delete_each : Records → Records → Records
delete_each [] store = store
delete_each (q ∷ qs) store = delete_each qs (delete q.envelope_id q.recipient store)

-- The count of what was pruned comes with the state. The clock is past the retention time.
unfoldable pub prune_terminal : ℕ → ℕ → Scheduler → Scheduler × ℕ
unfolding delete_each
prune_terminal now retention_ms s =
    let stale = list_terminal_older_than (now - retention_ms) s.store in
    (record s { store = delete_each stale s.store }, length stale)
