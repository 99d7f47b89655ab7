-- ===== src/Delivery/Scheduler/Ends.antt =====
-- How records end: cancellation, and what becomes of a record that has ended.
use text.Mathlib.TextEquality.{eq_iff}
use semp_ts.Common.{
  ℕ, ◌<◌, String, ◌≡◌, refl, sym, ap, ◌∙◌, true, false, Option, none, some, [], ◌∷◌, str_eq,
  if◌then◌else◌, arith, inl, inr, Bool-cases, Fallible, ok, throw, All, subst, Option-cases, lt→leb,
}
use semp_ts.Delivery.Queue.{
  RecordState, delivered, canceled, Outcome, QueueState, is_terminal_state, set_terminal,
}
use semp_ts.Delivery.Scheduler.Store.{Records, key, key_of, put, find, get}
use semp_ts.Delivery.Scheduler.Store.Laws.{find-put}
use semp_ts.Delivery.Scheduler.{
  AttemptResult, SchedulerConfig, SchedulerError, Scheduler, TickResult, Environment, run_attempt,
  tick_one, with_answer, cancel, cancel_record, end_canceled, CancelResult, unknown_record,
  note_attempt,
}
use semp_ts.Delivery.Scheduler.Steps.{
  IsNamed, IsSamePair, run_attempt-IsSamePair, IsNamed-step, emit-IsNamed, key-IsSamePair,
  finish-IsNamed,
}

set_terminal-IsSamePair :
    (state : RecordState) (now : ℕ) (q : QueueState) → IsSamePair q (set_terminal state now q)
unfolding set_terminal
set_terminal-IsSamePair state now q = ground arith

-- The end of a record that is not terminal is put into the store, and its event is accepted.
end_canceled-find :
    (cfg : SchedulerConfig) (now : ℕ) (reason : String) (q : QueueState) (s : Scheduler)
    → IsNamed q
    → let (s', refused) = end_canceled cfg now reason q s in
      (s'.store ≡ put (set_terminal canceled now q) s.store) × (refused ≡ none)
unfolding end_canceled
end_canceled-find cfg now reason q s named =
    let (evs, e) =
      emit-IsNamed cfg now (set_terminal canceled now q) (some reason)
        (IsNamed-step (set_terminal-IsSamePair canceled now q) named) in
    ground (arith, e)

-- What a cancellation leaves.
pub record Cancels (now : ℕ) (recipient : String) (q : QueueState) (s s' : Scheduler)
    (result : Fallible SchedulerError CancelResult) : Type 0 where
  pub returned :
      result
      ≡ ok (record {
        recipient = recipient;
        state = (set_terminal canceled now q).state;
        already = is_terminal_state q.state;
      })
  pub at_key :
      (k : String)
      → find k s'.store
        ≡ (if str_eq (key q) k then some (set_terminal canceled now q) else find k s.store)
  pub ended : is_terminal_state (set_terminal canceled now q).state ≡ true

cancel_record-Cancels :
    (cfg : SchedulerConfig) (now : ℕ) (recipient : String) (q : QueueState) (s : Scheduler)
    → IsNamed q
    → find (key q) s.store ≡ some q
    → let (s', result) = cancel_record cfg now recipient s (some q) in
      Cancels now recipient q s s' result
unfolding cancel_record is_terminal_state
cancel_record-Cancels cfg now recipient q s named found =
    elim (Bool-cases (is_terminal_state q.state)) [
      | inl ended ↦
          let same : set_terminal canceled now q ≡ q =
            unfold set_terminal in ground (arith, ended) in
          rw (ended) (record {
            returned = rw (same, ended) refl;
            at_key = λ k. rw same (ground (arith, find-key k));
            ended = rw same ended;
          })
      | inr live ↦
          let (put_in, accepted) =
            end_canceled-find cfg now "client-initiated cancellation" q s named in
          let state : (set_terminal canceled now q).state ≡ canceled =
            unfold set_terminal in ground (arith, live) in
          rw live (record {
            returned = rw (accepted, state, live) refl;
            at_key = λ k. rw (
              put_in,
              find-put k (set_terminal canceled now q) s.store,
              key-IsSamePair (set_terminal-IsSamePair canceled now q),
            );
            ended = rw state refl;
          })
    ]
  where
    find-key : (k : String) → str_eq (key q) k ≡ true → find k s.store ≡ some q
    find-key k e = subst (λ j. find j s.store ≡ some q) ((eq_iff (key q) k).0 e) found

-- A record that a lookup finds is at its key, and has what all records have.
found_at :
    (k : String) (store : Records) {q : QueueState}
    → All IsNamed store
    → find k store ≡ some q
    → (key q ≡ k) × IsNamed q
unfolding find
found_at k [] named e = cc
found_at k (p ∷ ps) {q} named e = elim (Bool-cases (str_eq (key p) k)) [
  | inl here ↦
      let same : p ≡ q = ground (arith, here, e) in
      (ap key (sym same) ∙ (eq_iff (key p) k).0 here, subst IsNamed same named.0)
  | inr later ↦ found_at k ps named.1 (ground (arith, later, e))
]

-- What a cancellation promises, by what its lookup finds.
pub CancelSpec :
    ℕ
    → String
    → Scheduler
    → Option QueueState
    → Scheduler × Fallible SchedulerError CancelResult
    → Type 0
CancelSpec now recipient s none (s', result) = (s' ≡ s) × (result ≡ throw unknown_record)
CancelSpec now recipient s (some q) (s', result) = Cancels now recipient q s s' result

-- Over a store of named records, a cancellation of a pair that is not there changes nothing and is
-- refused; of one that is there it returns the state that the record ends with and whether it had
-- ended before, the record at the pair's key is then the canceled one (or as before, where it had
-- ended), and no other key changes.
pub cancel-CancelSpec :
    (cfg : SchedulerConfig) (now : ℕ) (envelope_id recipient : String) (s : Scheduler)
    → All IsNamed s.store
    → CancelSpec now recipient s
        (get envelope_id recipient s.store)
        (cancel cfg now envelope_id recipient s)
unfolding cancel CancelSpec
cancel-CancelSpec cfg now envelope_id recipient s named =
    elim (Option-cases (get envelope_id recipient s.store)) [
      | inl absent ↦ rw absent (unfold cancel_record in (refl, refl))
      | inr (q, found) ↦
          let at_key : find (key_of envelope_id recipient) s.store ≡ some q = unfold get in found in
          let (at, name) = found_at (key_of envelope_id recipient) s.store {q = q} named at_key in
          rw found (
            cancel_record-Cancels cfg now recipient q s name (ap (λ k. find k s.store) at ∙ at_key))
    ]

-- A round's answer is written over whatever other calls have made of the record while it was
-- awaited, a cancellation too: where the delivery of a record that has not ended and is before its
-- deadline succeeds, the record at its key is the delivered one afterwards.
pub tick_one-overwrites :
    (cfg : SchedulerConfig) (env : Environment) (now : ℕ) (q : QueueState) (s : Scheduler)
    (t : TickResult) (res : AttemptResult)
    → IsNamed q
    → is_terminal_state q.state ≡ false
    → now < q.deadline
    → env.deliver q.envelope_id q.recipient ≡ some res
    → res.status ≡ Outcome.delivered
    → find (key q) (tick_one cfg env now q s t).0.store
      ≡ some (set_terminal delivered now (note_attempt now res q))
unfolding tick_one with_answer
tick_one-overwrites cfg env now q s t res named live early answer status =
    let r = env.random q.envelope_id q.recipient in
    let s1 = env.meanwhile q.envelope_id q.recipient s in
    let p = run_attempt cfg now r res q in
    let same = run_attempt-IsSamePair cfg now r res q in
    let made : p.0 ≡ set_terminal delivered now (note_attempt now res q) =
      unfold run_attempt note_attempt in ground (arith, status, live) in
    let stored = finish-IsNamed cfg now p s1 t (IsNamed-step same named) in
    rw (live, lt→leb q.deadline now early, answer)
      (ap (find (key q)) stored.0
        ∙ find-put (key q) p.0 s1.store
        ∙ ground (arith, key-IsSamePair same, eq_iff (key q) (key q), made))
