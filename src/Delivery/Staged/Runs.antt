-- ===== src/Delivery/Staged/Runs.antt =====
-- Calls of the runner in any order, and what they make of one envelope.
use text.Mathlib.TextEquality.{eq_iff}
use semp_ts.Common.{
  ℕ, String, ◌≡◌, refl, ap, ◌∙◌, inl, inr, Bool, true, false, Option, none, some, List, [], ◌∷◌,
  str_eq, if◌then◌else◌, not, lookup, insert, IsMap, Bool-cases, Fallible, ok, throw, throw_if,
  ◌>>=◌, ◌>>◌, insert-IsMap, remove-IsMap, lookup-insert, lookup-remove,
}
use semp_ts.Delivery.Disposition.{Disposition, StagedHeld, StagedHeldStage, validate_disposition}
use semp_ts.Delivery.Staged.{
  Held, StagedError, hold, hold_checked, with_hold, ballot, ingest_disposition, reevaluate,
  reevaluate_in, reevaluate_empty_envelope_id, vote_in, or_bad_disposition, no_submitter,
  wrong_submitter,
}
use semp_ts.Delivery.Staged.Rounds.{Pending, tick}
use semp_ts.Delivery.Staged.Tick.{left_of, tick-IsRound}

-- A call: no other comes between a hold and the answer of its delivery.
pub data Event : Type 0 where
  ticked : ℕ → (Pending → Option String) → Event
  voted : String → String → Disposition → Event
  reevaluated : String → List StagedHeldStage → Event
  held : ℕ → String → List StagedHeldStage → Bool → Event

-- A call that throws leaves the runner.
abbrev pub or_same {ℓ κ} : {A : Type ℓ} {E : Type κ} → Fallible E A → A → A
or_same (throw e) s = s
or_same (ok s') s = s'

-- A call that throws leaves the envelope.
abbrev pub or_still : Fallible StagedError StagedHeld → Option StagedHeld → Option StagedHeld
or_still (throw e) o = o
or_still (ok rec) o = some rec

module _ (timeout : ℕ) where
  unfoldable pub step : Event → Held → Held
  step (ticked now hook) s = (tick timeout now hook s).0
  step (voted id submitter d) s = or_same (ingest_disposition id submitter d s) s
  step (reevaluated id stages) s = or_same (reevaluate id stages s) s
  step (held now id stages delivered) s = (hold timeout now id stages delivered (λ t. t) s).0

  unfoldable pub run : List Event → Held → Held
  run [] s = s
  run (e ∷ es) s = run es (step e s)

  abbrev pub held_new :
      Bool → Fallible StagedError StagedHeld → Option StagedHeld → Option StagedHeld
  held_new delivered (throw e) o = o
  held_new false (ok rec) o = none
  held_new true (ok rec) o = some rec

  -- The call's effect on the envelope `id`.
  unfoldable pub envelope_step : String → Event → Option StagedHeld → Option StagedHeld
  envelope_step id (ticked now hook) o = left_of timeout now id o
  envelope_step id (voted k submitter d) o =
      if str_eq k id then or_still (ballot submitter d o) o else o
  envelope_step id (reevaluated k stages) o =
      if str_eq k id
      then or_still (throw_if (str_eq k "") reevaluate_empty_envelope_id >> reevaluate_in stages o)
          o
      else o
  envelope_step id (held now k stages delivered) o =
      if str_eq k id then held_new delivered (hold_checked timeout now k stages o) o else o

  lookup-or_same :
      (k id : String) (answer : Fallible StagedError StagedHeld) (s : Held)
      → lookup id (or_same (answer >>= λ rec. ok (insert k rec s)) s)
        ≡ (if str_eq k id then or_still answer (lookup id s) else lookup id s)
  lookup-or_same k id (throw e) s = if_same (str_eq k id) (lookup id s)
    where
      if_same : (b : Bool) (o : Option StagedHeld) → o ≡ (if b then o else o)
      if_same true o = refl
      if_same false o = refl
  lookup-or_same k id (ok rec) s = lookup-insert k id rec s

  or_same-IsMap :
      (k : String) (answer : Fallible StagedError StagedHeld) (s : Held)
      → IsMap s
      → IsMap (or_same (answer >>= λ rec. ok (insert k rec s)) s)
  or_same-IsMap k (throw e) s h = h
  or_same-IsMap k (ok rec) s h = insert-IsMap k rec s h

  -- Under a test that two ids are the same, one of them is read for the other.
  at_same :
      {A : Type 0} (k id : String) (f : Option StagedHeld → A) (other : A) (s : Held)
      → (if str_eq k id then f (lookup k s) else other)
        ≡ (if str_eq k id then f (lookup id s) else other)
  at_same k id f other s = elim (Bool-cases (str_eq k id)) [
    | inl e ↦ rw e (ap (λ j. f (lookup j s)) ((eq_iff k id).0 e))
    | inr e ↦ rw e refl
  ]

  lookup-with_hold :
      (k id : String) (delivered : Bool) (answer : Fallible StagedError StagedHeld) (s : Held)
      → IsMap s
      → lookup id (with_hold k delivered (λ t. t) s answer).0
        ≡ (if str_eq k id then held_new delivered answer (lookup id s) else lookup id s)
  lookup-with_hold k id delivered (throw e) s h = if_same (str_eq k id) (lookup id s)
    where
      if_same : (b : Bool) (o : Option StagedHeld) → o ≡ (if b then o else o)
      if_same true o = refl
      if_same false o = refl
  lookup-with_hold k id true (ok rec) s h = lookup-insert k id rec s
  lookup-with_hold k id false (ok rec) s h =
      lookup-remove k id (insert k rec s) (insert-IsMap k rec s h)
      ∙ ap (λ o. if str_eq k id then none else o) (lookup-insert k id rec s)
      ∙ twice (str_eq k id) (some rec) (lookup id s)
    where
      twice :
          (b : Bool) (a o : Option StagedHeld)
          → ◌≡◌ {A = Option StagedHeld}
              (if b then none else (if b then a else o))
              (if b then none else o)
      twice true a o = refl
      twice false a o = refl

  with_hold-IsMap :
      (k : String) (delivered : Bool) (answer : Fallible StagedError StagedHeld) (s : Held)
      → IsMap s
      → IsMap (with_hold k delivered (λ t. t) s answer).0
  with_hold-IsMap k delivered (throw e) s h = h
  with_hold-IsMap k true (ok rec) s h = insert-IsMap k rec s h
  with_hold-IsMap k false (ok rec) s h = remove-IsMap k _ (insert-IsMap k rec s h)

  pub step-IsMap : (e : Event) (s : Held) → IsMap s → IsMap (step e s)
  unfolding step ingest_disposition reevaluate hold
  step-IsMap (ticked now hook) s h = (tick-IsRound timeout now "" hook s h).2
  step-IsMap (voted k submitter d) s h = or_same-IsMap k (ballot submitter d (lookup k s)) s h
  step-IsMap (reevaluated k stages) s h =
      or_same-IsMap k
        (throw_if (str_eq k "") reevaluate_empty_envelope_id >> reevaluate_in stages (lookup k s)) s
        h
  step-IsMap (held now k stages delivered) s h =
      with_hold-IsMap k delivered (hold_checked timeout now k stages (lookup k s)) s h

  pub lookup-step :
      (id : String) (e : Event) (s : Held)
      → IsMap s
      → lookup id (step e s) ≡ envelope_step id e (lookup id s)
  unfolding step envelope_step ingest_disposition reevaluate hold
  lookup-step id (ticked now hook) s h = (tick-IsRound timeout now id hook s h).0
  lookup-step id (voted k submitter d) s h =
      lookup-or_same k id (ballot submitter d (lookup k s)) s
      ∙ at_same k id (λ o. or_still (ballot submitter d o) (lookup id s)) (lookup id s) s
  lookup-step id (reevaluated k stages) s h =
      let named : Fallible StagedError (Unit {0}) =
        throw_if (str_eq k "") reevaluate_empty_envelope_id in
      lookup-or_same k id (named >> reevaluate_in stages (lookup k s)) s
      ∙ at_same k id (λ o. or_still (named >> reevaluate_in stages o) (lookup id s)) (lookup id s) s
  lookup-step id (held now k stages delivered) s h =
      lookup-with_hold k id delivered (hold_checked timeout now k stages (lookup k s)) s h
      ∙ at_same k id (λ o. held_new delivered (hold_checked timeout now k stages o) (lookup id s))
          (lookup id s) s

  unfoldable pub envelope_run : String → List Event → Option StagedHeld → Option StagedHeld
  envelope_run id [] o = o
  envelope_run id (e ∷ es) o = envelope_run id es (envelope_step id e o)

  -- Whatever the calls, each envelope goes its own way.
  pub lookup-run :
      (id : String) (es : List Event) (s : Held)
      → IsMap s
      → lookup id (run es s) ≡ envelope_run id es (lookup id s)
  unfolding run envelope_run
  lookup-run id [] s h = refl
  lookup-run id (e ∷ es) s h =
      lookup-run id es (step e s) (step-IsMap e s h)
      ∙ ap (envelope_run id es) (lookup-step id e s h)

module _ {κ} (P : Option StagedHeld → Type κ) (o : Option StagedHeld) (still : P o) where
  -- A guard only leaves the envelope.
  pub guard_keeps :
      (guard : Fallible StagedError (Unit {0})) (answer : Fallible StagedError StagedHeld)
      → P (or_still answer o)
      → P (or_still (guard >> answer) o)
  guard_keeps (throw e) answer h = still
  guard_keeps (ok u) answer h = h

  pub ballot_keeps :
      (submitter : String) (d : Disposition)
      → P (or_still (vote_in d o) o)
      → P (or_still (ballot submitter d o) o)
  unfolding ballot
  ballot_keeps submitter d h = guard_keeps (or_bad_disposition (validate_disposition d)) _ (
      guard_keeps (throw_if (str_eq submitter "") no_submitter) _
        (guard_keeps (throw_if (not (str_eq submitter d.device_id)) wrong_submitter) _ h))
