-- ===== src/Delivery/Scheduler/Steps.antt =====
-- One record's step: what it keeps of the record, and that its events are accepted.
use text.Mathlib.TextEquality.{eq_iff}
use semp_ts.Common.Maps.{lookup}
use semp_ts.Common.{
  ℕ, ◌+◌, String, ◌≡◌, refl, sym, ◌∙◌, false, Option, List, [], ◌∷◌, ◌++◌, str_eq, arith, inl, inr,
  Bool-cases, ◌≢◌, ok,
}
use semp_ts.Delivery.Queue.{QueueState, iso_second}
use semp_ts.Delivery.Retry.{Draw}
use semp_ts.Delivery.Scheduler.Store.{key, put}
use semp_ts.Delivery.Submission.{new_submission_event, SubmissionEvent, EventStatus, EventOptions}
use semp_ts.Delivery.Scheduler.{
  AttemptResult, SchedulerConfig, Scheduler, Transition, TickResult, emit, emit_all, finish,
  transition_expired, run_attempt, event_status, event_options,
}

-- Both names are there, as `enqueue` demands.
pub record IsNamed (q : QueueState) : Type 0 where
  pub envelope_named : q.envelope_id ≢ ""
  pub recipient_named : q.recipient ≢ ""

-- A step works on the same (envelope, recipient) pair and deadline.
pub record IsSamePair (q q' : QueueState) : Type 0 where
  pub same_envelope : q'.envelope_id ≡ q.envelope_id
  pub same_recipient : q'.recipient ≡ q.recipient
  pub same_deadline : q'.deadline ≡ q.deadline

pub transition_expired-IsSamePair :
    (now : ℕ) (q : QueueState) → IsSamePair q (transition_expired now q).0
unfolding transition_expired
transition_expired-IsSamePair now q = ground arith

pub run_attempt-IsSamePair :
    (cfg : SchedulerConfig) (now : ℕ) (r : Draw) (res : AttemptResult) (q : QueueState)
    → IsSamePair q (run_attempt cfg now r res q).0
unfolding run_attempt
run_attempt-IsSamePair cfg now r res q = ground arith

pub IsNamed-step : {q q' : QueueState} → IsSamePair q q' → IsNamed q → IsNamed q'
IsNamed-step same named = record {
  envelope_named = λ e. named.envelope_named (sym same.same_envelope ∙ e);
  recipient_named = λ e. named.recipient_named (sym same.same_recipient ∙ e);
}

pub key-IsSamePair : {q q' : QueueState} → IsSamePair q q' → key q' ≡ key q
key-IsSamePair same = cc (same.same_envelope, same.same_recipient)

named-str_eq : (s : String) → s ≢ "" → str_eq s "" ≡ false
named-str_eq s h = elim (Bool-cases (str_eq s "")) [
  | inl e ↦ absurd (h ((eq_iff s "").0 e))
  | inr e ↦ e
]

new_submission_event-named :
    (envelope_id recipient : String) (status : EventStatus) (opts : EventOptions)
    → envelope_id ≢ ""
    → recipient ≢ ""
    → (ev : SubmissionEvent) × (new_submission_event envelope_id recipient status opts ≡ ok ev)
unfolding new_submission_event
new_submission_event-named envelope_id recipient status opts e r = (
  record {
    envelope_id = envelope_id;
    recipient = recipient;
    status = status;
    reason_code = lookup "reason_code" opts.texts;
    reason = lookup "reason" opts.texts;
    timestamp = iso_second opts.now;
  },
  rw (named-str_eq envelope_id e, named-str_eq recipient r),
)

pub emit-IsNamed :
    (cfg : SchedulerConfig) (now : ℕ) (q : QueueState) (reason : Option String)
    → IsNamed q
    → (evs : List SubmissionEvent) × (emit cfg now q reason ≡ ok evs)
unfolding emit
emit-IsNamed cfg now q reason named = elim (Bool-cases cfg.has_sink) [
  | inl sink ↦
      let (ev, made) =
        new_submission_event-named q.envelope_id q.recipient (event_status q.state)
          (event_options now q reason) named.envelope_named named.recipient_named in
      (ev ∷ [], rw (sink, made))
  | inr no_sink ↦ ([], rw no_sink)
]

emit_all-IsNamed :
    (cfg : SchedulerConfig) (now : ℕ) (q : QueueState) (reasons : List (Option String))
    → IsNamed q
    → (evs : List SubmissionEvent) × (emit_all cfg now q reasons ≡ ok evs)
unfolding emit_all
emit_all-IsNamed cfg now q [] named = ([], refl)
emit_all-IsNamed cfg now q (reason ∷ reasons) named =
    let (evs, one) = emit-IsNamed cfg now q reason named in
    let (more, rest) = emit_all-IsNamed cfg now q reasons named in
    (evs ++ more, ground (arith, one, rest))

-- A step of a named record is put into the store.
pub finish-IsNamed :
    (cfg : SchedulerConfig) (now : ℕ) (p : Transition) (s : Scheduler) (t : TickResult)
    → IsNamed p.0
    → let (s', t') = finish cfg now p s t in
      (s'.store ≡ put p.0 s.store)
      × (s'.tick_in_flight ≡ s.tick_in_flight)
      × (t'.advanced ≡ t.advanced + 1)
unfolding finish
finish-IsNamed cfg now p s t named =
    let (evs, e) = emit_all-IsNamed cfg now p.0 p.1 named in ground (arith, e)
