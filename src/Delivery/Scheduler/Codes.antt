-- ===== src/Delivery/Scheduler/Codes.antt =====
-- The reason codes of the events that the scheduler hands to its sink.
use semp_ts.Common.Maps.{lookup}
use semp_ts.Common.{
  ℕ, String, ◌≡◌, refl, sym, ◌∙◌, inl, inr, true, Option, none, some, List, [], ◌∷◌, ◌++◌, All,
  All-append, Fallible, ok, throw, arith, Bool-cases, subst, leb,
}
use semp_ts.Delivery.Retry.{Draw}
use semp_ts.Delivery.Queue.{QueueState, is_terminal_state}
use semp_ts.Delivery.Submission.{
  SubmissionEvent, EventStatus, EventOptions, SubmissionError, new_submission_event,
}
use semp_ts.Delivery.Scheduler.{
  AttemptResult, SchedulerConfig, SchedulerError, Scheduler, Transition, TickResult, Environment,
  bad_event, emit, emit_all, finish, transition_expired, run_attempt, with_answer, tick_one,
  tick_loop, tick, no_result, event_status, event_options, property, non_empty,
}
use semp_ts.Delivery.Scheduler.Store.{Records, due_records}

abbrev pub HasNoCode : SubmissionEvent → Type 0
HasNoCode ev = ev.reason_code ≡ none

new_submission_event-code :
    (envelope_id recipient : String) (status : EventStatus) (opts : EventOptions)
    {ev : SubmissionEvent}
    → new_submission_event envelope_id recipient status opts ≡ ok ev
    → ev.reason_code ≡ lookup "reason_code" opts.texts
unfolding new_submission_event
new_submission_event-code envelope_id recipient status opts h = ground (arith, h)

-- Neither property that `emit` sets is the one that is read.
no_code_property :
    (code reason : Option String)
    → lookup "reason_code" (property "reasonCode" code ++ property "reason" reason) ≡ none
no_code_property none none = refl
no_code_property none (some text) = refl
no_code_property (some code) none = refl
no_code_property (some code) (some text) = refl

-- Events that a call may return; it returns none where it throws.
abbrev NoCodes : Fallible SchedulerError (List SubmissionEvent) → Type 0
NoCodes (throw e) = Unit
NoCodes (ok evs) = All HasNoCode evs

one_event :
    (answer : Fallible SubmissionError SubmissionEvent)
    → ((ev : SubmissionEvent) → answer ≡ ok ev → HasNoCode ev)
    → NoCodes (elim answer [ ok ev ↦ ok (ev ∷ []) | throw e ↦ throw (bad_event e) ])
one_event (throw e) h = tt
one_event (ok ev) h = (h ev refl, tt)

emit-NoCodes :
    (cfg : SchedulerConfig) (now : ℕ) (q : QueueState) (reason : Option String)
    → NoCodes (emit cfg now q reason)
unfolding emit
emit-NoCodes cfg now q reason = elim (Bool-cases cfg.has_sink) [
  | inr no_sink ↦ rw no_sink tt
  | inl sink ↦ rw sink (
      one_event
        (new_submission_event q.envelope_id q.recipient (event_status q.state)
          (event_options now q reason))
        (λ ev e.
          new_submission_event-code q.envelope_id q.recipient (event_status q.state)
            (event_options now q reason) {ev = ev} e
          ∙ no_code_property q.last_reason_code (non_empty reason)))
]

joined :
    (first rest : Fallible SchedulerError (List SubmissionEvent))
    → NoCodes first
    → NoCodes rest
    → NoCodes (elim first [
      | throw e ↦ throw e
      | ok evs ↦ elim rest [ throw e ↦ throw e | ok more ↦ ok (evs ++ more) ]
    ])
joined (throw e) rest h k = tt
joined (ok evs) (throw e) h k = tt
joined (ok evs) (ok more) h k = All-append HasNoCode evs more h k

emit_all-NoCodes :
    (cfg : SchedulerConfig) (now : ℕ) (q : QueueState) (reasons : List (Option String))
    → NoCodes (emit_all cfg now q reasons)
unfolding emit_all
emit_all-NoCodes cfg now q [] = tt
emit_all-NoCodes cfg now q (reason ∷ reasons) =
    joined (emit cfg now q reason) (emit_all cfg now q reasons) (emit-NoCodes cfg now q reason)
      (emit_all-NoCodes cfg now q reasons)

finish-HasNoCode :
    (cfg : SchedulerConfig) (now : ℕ) (p : Transition) (s : Scheduler) (t : TickResult)
    → All HasNoCode s.events
    → All HasNoCode (finish cfg now p s t).0.events
unfolding finish
finish-HasNoCode cfg now p s t h = go (emit_all cfg now p.0 p.1) refl
  where
    go :
        (answer : Fallible SchedulerError (List SubmissionEvent))
        → emit_all cfg now p.0 p.1 ≡ answer
        → All HasNoCode (finish cfg now p s t).0.events
    go (throw e) failed =
        let same : (finish cfg now p s t).0.events ≡ s.events =
          unfold finish in ground (arith, failed) in
        subst (All HasNoCode) (sym same) h
    go (ok evs) done =
        let same : (finish cfg now p s t).0.events ≡ s.events ++ evs =
          unfold finish in ground (arith, done) in
        subst (All HasNoCode) (sym same) (
          All-append HasNoCode s.events evs h
            (subst NoCodes done (emit_all-NoCodes cfg now p.0 p.1)))

module _ (cfg : SchedulerConfig) (env : Environment) (now : ℕ)
    (keeps : (e r : String) (s : Scheduler)
      → All HasNoCode s.events
      → All HasNoCode (env.meanwhile e r s).events) where
  with_answer-HasNoCode :
      (r : Draw) (q : QueueState) (s : Scheduler) (t : TickResult) (answer : Option AttemptResult)
      → All HasNoCode s.events
      → All HasNoCode (with_answer cfg now r q s t answer).0.events
  unfolding with_answer
  with_answer-HasNoCode r q s t none h = h
  with_answer-HasNoCode r q s t (some res) h =
      finish-HasNoCode cfg now (run_attempt cfg now r res q) s t h

  tick_one-HasNoCode :
      (q : QueueState) (s : Scheduler) (t : TickResult)
      → All HasNoCode s.events
      → All HasNoCode (tick_one cfg env now q s t).0.events
  unfolding tick_one
  tick_one-HasNoCode q s t h = elim (Bool-cases (is_terminal_state q.state)) [
    | inl ended ↦ rw ended h
    | inr live ↦ elim (Bool-cases (leb q.deadline now)) [
      | inl late ↦ rw (live, late) (finish-HasNoCode cfg now (transition_expired now q) s t h)
      | inr early ↦
          rw (live, early)
            (with_answer-HasNoCode (env.random q.envelope_id q.recipient) q
              (env.meanwhile q.envelope_id q.recipient s) t (env.deliver q.envelope_id q.recipient)
              (keeps q.envelope_id q.recipient s h))
    ]
  ]

  tick_loop-HasNoCode :
      (qs : Records) (s : Scheduler) (t : TickResult)
      → All HasNoCode s.events
      → All HasNoCode (tick_loop cfg env now qs s t).0.events
  unfolding tick_loop
  tick_loop-HasNoCode [] s t h = h
  tick_loop-HasNoCode (q ∷ qs) s t h =
      let (s1, t1) = tick_one cfg env now q s t in
      tick_loop-HasNoCode qs s1 t1 (tick_one-HasNoCode q s t h)

  -- Where no event so far has a reason code, and other calls during the waits add none that has, no
  -- event has one after a tick: a record's last reason code does not reach its event.
  pub tick-HasNoCode :
      (s s' : Scheduler) (t : TickResult)
      → tick cfg env now s ≡ ok (s', t)
      → All HasNoCode s.events
      → All HasNoCode s'.events
  unfolding tick
  tick-HasNoCode s s' t done h = elim (Bool-cases s.tick_in_flight) [
    | inl busy ↦ absurd (ground (arith, done, busy))
    | inr idle ↦
        let end =
          tick_loop cfg env now (due_records now s.store) (record s { tick_in_flight = true })
            no_result in
        let same : s'.events ≡ end.0.events = ground (arith, done, idle) in
        subst (All HasNoCode) (sym same) (
          tick_loop-HasNoCode (due_records now s.store) (record s { tick_in_flight = true })
            no_result h)
  ]
