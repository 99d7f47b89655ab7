-- ===== src/Delivery/Scheduler/Tick.antt =====
-- A tick is a map over the store: each due record takes its step, and nothing else changes.
use text.Mathlib.TextEquality.{eq_iff}
use semp_ts.Common.{
  ℕ, String, ◌≡◌, refl, sym, ap, ◌∙◌, Bool, true, false, Option, none, some, [], ◌∷◌, leb, str_eq,
  if◌then◌else◌, arith, inl, inr, Bool-cases, ok, All, subst,
}
use semp_ts.Delivery.Queue.{QueueState, is_terminal_state}
use semp_ts.Delivery.Scheduler.Store.{
  Records, key, find, select, is_due, sort_due, insert_due, due_records, before,
}
use semp_ts.Delivery.Scheduler.Store.Laws.{
  IsKeyed, find-put, put-IsKeyed, keep_if, find-select, select-IsKeyed, find-sort_due,
  sort_due-IsKeyed,
}
use semp_ts.Delivery.Scheduler.{
  AttemptResult, SchedulerConfig, Scheduler, Transition, TickResult, finish, Environment,
  transition_expired, run_attempt, tick_one, tick_loop, tick, no_result, with_answer,
}
use semp_ts.Delivery.Scheduler.Steps.{
  IsNamed, IsSamePair, transition_expired-IsSamePair, run_attempt-IsSamePair, IsNamed-step,
  key-IsSamePair, finish-IsNamed,
}

-- What a tick makes of a record that is due: it is expired from its deadline on; before, it is
-- attempted, and left as it is where the delivery throws.
unfoldable pub advance : SchedulerConfig → Environment → ℕ → QueueState → QueueState
advance cfg env now q =
    if leb q.deadline now
    then (transition_expired now q).0
    else elim (env.deliver q.envelope_id q.recipient) [
      | none ↦ q
      | some res ↦ (run_attempt cfg now (env.random q.envelope_id q.recipient) res q).0
    ]

-- No other call comes between a delivery and its answer.
abbrev pub IsAtomic : Environment → Type 0
IsAtomic env = (e r : String) (s : Scheduler) → env.meanwhile e r s ≡ s

-- A record that a tick takes up.
record IsReady (q : QueueState) : Type 0 where
  named : IsNamed q
  live : is_terminal_state q.state ≡ false

module _ (cfg : SchedulerConfig) (env : Environment) (now : ℕ) (atomic : IsAtomic env) where
  -- One round, seen from the store.
  record Rounds (q : QueueState) (s s' : Scheduler) : Type 0 where
    at_key :
        (k : String)
        → find k s'.store
          ≡ (if str_eq (key q) k then some (advance cfg env now q) else find k s.store)
    keyed' : IsKeyed s'.store
    flight : s'.tick_in_flight ≡ s.tick_in_flight

  -- The store holds the record at its key, and nothing else changes.
  stays :
      (q : QueueState) (s : Scheduler)
      → find (key q) s.store ≡ some q
      → IsKeyed s.store
      → advance cfg env now q ≡ q
      → Rounds q s s
  stays q s found keyed same = record {
    at_key = λ k. rw same (ground (arith, found, find-key k));
    keyed' = keyed;
    flight = refl;
  }
    where
      find-key : (k : String) → str_eq (key q) k ≡ true → find k s.store ≡ some q
      find-key k e = subst (λ j. find j s.store ≡ some q) ((eq_iff (key q) k).0 e) found

  stored :
      (q : QueueState) (p : Transition) (s : Scheduler) (t : TickResult)
      → IsNamed q
      → IsSamePair q p.0
      → p.0 ≡ advance cfg env now q
      → IsKeyed s.store
      → Rounds q s (finish cfg now p s t).0
  stored q p s t named same step keyed =
      let (put_in, flight, _) = finish-IsNamed cfg now p s t (IsNamed-step same named) in
      record {
        at_key = λ k. rw (put_in, find-put k p.0 s.store, key-IsSamePair same, step);
        keyed' = rw put_in (put-IsKeyed p.0 s.store keyed);
        flight = flight;
      }

  answered :
      (q : QueueState) (s : Scheduler) (t : TickResult) (answer : Option AttemptResult)
      → IsNamed q
      → find (key q) s.store ≡ some q
      → IsKeyed s.store
      → leb q.deadline now ≡ false
      → env.deliver q.envelope_id q.recipient ≡ answer
      → Rounds q s (with_answer cfg now (env.random q.envelope_id q.recipient) q s t answer).0
  unfolding with_answer
  answered q s t none named found keyed early e =
      stays q s found keyed (unfold advance in ground (arith, e, early))
  answered q s t (some res) named found keyed early e =
      stored q (run_attempt cfg now (env.random q.envelope_id q.recipient) res q) s t named
        (run_attempt-IsSamePair cfg now (env.random q.envelope_id q.recipient) res q)
        (unfold advance in ground (arith, e, early)) keyed

  tick_one-Rounds :
      (q : QueueState) (s : Scheduler) (t : TickResult)
      → IsReady q
      → find (key q) s.store ≡ some q
      → IsKeyed s.store
      → Rounds q s (tick_one cfg env now q s t).0
  unfolding tick_one
  tick_one-Rounds q s t ready found keyed = elim (Bool-cases (leb q.deadline now)) [
    | inl late ↦
        rw (ready.live, late)
          (stored q (transition_expired now q) s t ready.named (transition_expired-IsSamePair now q)
            (unfold advance in ground (arith, late)) keyed)
    | inr early ↦
        rw (ready.live, early, atomic q.envelope_id q.recipient s)
          (answered q s t (env.deliver q.envelope_id q.recipient) ready.named found keyed early
            refl)
  ]

  -- The whole loop: the records of the list take their steps, and the others stay.
  step_in : Records → String → Option QueueState → Option QueueState
  step_in qs k other = elim (find k qs) [ none ↦ other | some q ↦ some (advance cfg env now q) ]

  tick_loop-Rounds :
      (qs : Records) (s : Scheduler) (t : TickResult)
      → IsKeyed qs
      → All IsReady qs
      → ((k : String) (q : QueueState) → find k qs ≡ some q → find k s.store ≡ some q)
      → IsKeyed s.store
      → let s' = (tick_loop cfg env now qs s t).0 in
        ((k : String) → find k s'.store ≡ step_in qs k (find k s.store)) × IsKeyed s'.store
  unfolding tick_loop
  tick_loop-Rounds [] s t keys ready held keyed = (λ k. unfold step_in find in refl, keyed)
  tick_loop-Rounds (q ∷ qs) s t keys ready held keyed =
      let found : find (key q) s.store ≡ some q =
        held (key q) q (unfold find in ground (arith, eq_iff (key q) (key q))) in
      let round = tick_one-Rounds q s t ready.0 found keyed in
      let (s1, t1) = tick_one cfg env now q s t in
      let (steps, keyed') = tick_loop-Rounds qs s1 t1 keys.1 ready.1 (later round) round.keyed' in
      (λ k. steps k ∙ together round k, keyed')
    where
      not_here : (k : String) → str_eq (key q) k ≡ true → find k qs ≡ none
      not_here k e = subst (λ j. find j qs ≡ none) ((eq_iff (key q) k).0 e) keys.0

      later :
          Rounds q s (tick_one cfg env now q s t).0
          → (k : String) (p : QueueState) → find k qs ≡ some p
          → find k (tick_one cfg env now q s t).0.store ≡ some p
      later round k p e = elim (Bool-cases (str_eq (key q) k)) [
        | inl same ↦ absurd (let h = not_here k same in cc)
        | inr other ↦ round.at_key k ∙ rw other (held k p (unfold find in rw other e))
      ]

      together :
          Rounds q s (tick_one cfg env now q s t).0
          → (k : String)
          → step_in qs k (find k (tick_one cfg env now q s t).0.store)
            ≡ step_in (q ∷ qs) k (find k s.store)
      together round k = elim (Bool-cases (str_eq (key q) k)) [
        | inl same ↦
            ap (step_in qs k) (round.at_key k)
            ∙ (unfold step_in find in ground (arith, same, not_here k same))
        | inr other ↦
            ap (step_in qs k) (round.at_key k) ∙ (unfold step_in find in ground (arith, other))
      ]

-- What a tick makes of the record at a key, where there is one.
unfoldable pub after_tick :
    SchedulerConfig → Environment → ℕ → Option QueueState → Option QueueState
after_tick cfg env now none = none
after_tick cfg env now (some q) = if is_due now q then some (advance cfg env now q) else some q

select-IsReady :
    (now : ℕ) (store : Records) → All IsNamed store → All IsReady (select (is_due now) store)
unfolding select
select-IsReady now [] named = tt
select-IsReady now (p ∷ ps) named = elim (Bool-cases (is_due now p)) [
  | inl due ↦
      let live : is_terminal_state p.state ≡ false = unfold is_due in ground (arith, due) in
      rw due (record { named = named.0; live = live }, select-IsReady now ps named.1)
  | inr waiting ↦ rw waiting (select-IsReady now ps named.1)
]

insert_due-IsReady :
    (q : QueueState) (store : Records)
    → IsReady q
    → All IsReady store
    → All IsReady (insert_due q store)
unfolding insert_due
insert_due-IsReady q [] h hs = (h, tt)
insert_due-IsReady q (p ∷ ps) h hs = elim (Bool-cases (before q p)) [
  | inl first ↦ rw first (h, hs)
  | inr later ↦ rw later (hs.0, insert_due-IsReady q ps h hs.1)
]

sort_due-IsReady : (store : Records) → All IsReady store → All IsReady (sort_due store)
unfolding sort_due
sort_due-IsReady [] hs = tt
sort_due-IsReady (p ∷ ps) hs = insert_due-IsReady p (sort_due ps) hs.0 (sort_due-IsReady ps hs.1)

find-due_records :
    (now : ℕ) (k : String) (store : Records)
    → IsKeyed store
    → find k (due_records now store) ≡ keep_if (is_due now) (find k store)
unfolding due_records
find-due_records now k store keyed =
    find-sort_due k (select (is_due now) store) (select-IsKeyed (is_due now) store keyed)
    ∙ find-select (is_due now) k store keyed

kept_found :
    (test : QueueState → Bool) (o : Option QueueState) {q : QueueState}
    → keep_if test o ≡ some q
    → o ≡ some q
kept_found test none e = cc
kept_found test (some p) e = ground (arith, e)

step_in-after_tick :
    (cfg : SchedulerConfig) (env : Environment) (now : ℕ) (atomic : IsAtomic env) (due : Records)
    (k : String) (o : Option QueueState)
    → find k due ≡ keep_if (is_due now) o
    → step_in cfg env now atomic due k o ≡ after_tick cfg env now o
unfolding step_in after_tick
step_in-after_tick cfg env now atomic due k none e = ground (arith, e)
step_in-after_tick cfg env now atomic due k (some q) e = ground (arith, e)

-- Where no other call comes between a delivery and its answer, a tick over a store of named records,
-- no key standing twice and no other tick running, succeeds; then, at every key, the record that was
-- due has taken its step, every other record is as before, and the store is a dictionary again.
pub tick-find :
    (cfg : SchedulerConfig) (env : Environment) (now : ℕ) (s : Scheduler)
    → IsAtomic env
    → IsKeyed s.store
    → All IsNamed s.store
    → s.tick_in_flight ≡ false
    → (s' : Scheduler) × (t : TickResult) × (tick cfg env now s ≡ ok (s', t))
      × ((k : String) → find k s'.store ≡ after_tick cfg env now (find k s.store))
      × IsKeyed s'.store
      × (s'.tick_in_flight ≡ false)
unfolding tick
tick-find cfg env now s atomic keyed named idle =
    let started = record s { tick_in_flight = true } in
    let due = due_records now s.store in
    let end = tick_loop cfg env now due started no_result in
    let (steps, keyed') =
      tick_loop-Rounds cfg env now atomic due started no_result
        (unfold due_records in
          sort_due-IsKeyed (select (is_due now) s.store)
            (select-IsKeyed (is_due now) s.store keyed))
        (unfold due_records in
          sort_due-IsReady (select (is_due now) s.store) (select-IsReady now s.store named))
        (λ k q e.
          kept_found (is_due now) (find k s.store) (sym (find-due_records now k s.store keyed) ∙ e))
        keyed in
    (
      record end.0 { tick_in_flight = false },
      end.1,
      rw idle,
      (λ k.
          steps k
          ∙ step_in-after_tick cfg env now atomic due k (find k s.store)
              (find-due_records now k s.store keyed)),
      keyed',
      refl,
    )
