-- ===== src/Delivery/Staged/Ends.antt =====
-- How a held envelope ends: after as many ticks as it has stages, each past its deadline; but an
-- envelope whose last stage a re-evaluation takes away is held for good.
use semp_ts.Common.{
  ℕ, suc, zero, ◌+◌, ◌≤◌, String, ◌≡◌, refl, ap, ◌∙◌, inl, inr, Bool, true, false, Option, none,
  some, List, [], ◌∷◌, str_eq, if◌then◌else◌, ◌||◌, le→leb, length, lookup, IsMap, arith,
  Bool-cases, subst,
}
use semp_ts.Delivery.Disposition.{
  Disposition, StagedHeld, StagedHeldStage, StageOutcome, advance, suppress, is_stage_complete,
  is_empty,
}
use semp_ts.Delivery.Staged.{Held, iso_second, ballot, vote_in, vote_at, includes, is_held}
use semp_ts.Delivery.Staged.Rounds.{tick_held, tick_stages, end_stage, next_stage}
use semp_ts.Delivery.Staged.Tick.{left_of}
use semp_ts.Delivery.Staged.Runs.{
  Event, ticked, voted, reevaluated, held, ballot_keeps, or_still, envelope_step, envelope_run, run,
  lookup-run,
}

-- Calls that neither hold nor re-evaluate the envelope, and whose ticks come no sooner than its
-- deadlines: the first not before `due`, each later one a timeout after the one before it.
abbrev pub IsSpaced : ℕ → String → ℕ → List Event → Type 0
IsSpaced timeout id due [] = Unit
IsSpaced timeout id due (ticked now hook ∷ es) =
    (due ≤ now) × IsSpaced timeout id (now + timeout) es
IsSpaced timeout id due (voted k submitter d ∷ es) = IsSpaced timeout id due es
IsSpaced timeout id due (reevaluated k stages ∷ es) =
    (str_eq k id ≡ false) × IsSpaced timeout id due es
IsSpaced timeout id due (held now k stages delivered ∷ es) =
    (str_eq k id ≡ false) × IsSpaced timeout id due es

abbrev pub count_ticks : List Event → ℕ
count_ticks [] = 0
count_ticks (ticked now hook ∷ es) = suc (count_ticks es)
count_ticks (voted k submitter d ∷ es) = count_ticks es
count_ticks (reevaluated k stages ∷ es) = count_ticks es
count_ticks (held now k stages delivered ∷ es) = count_ticks es

-- No longer held, or with at most `n` stages to go, the first of which is over by `due`.
abbrev IsReleasing : ℕ → ℕ → Option StagedHeld → Type 0
IsReleasing n due none = Unit
IsReleasing n due (some rec) =
    (is_empty rec.stages ≡ false)
    × (length rec.stages ≤ n)
    × ((at : ℕ) × ((rec.deadline ≡ some at) × (at ≤ due)))

iso_second_le : (ms : ℕ) → iso_second ms ≤ ms
unfolding iso_second
iso_second_le ms = omega arith

module _ (timeout : ℕ) where
  next_stage-IsReleasing :
      (n now stage : ℕ) (id : String) (rec : StagedHeld) (rest : List StagedHeldStage)
      → length rest ≤ n
      → IsReleasing n (now + timeout) (next_stage timeout now id rec stage rest).0
  next_stage-IsReleasing n now stage id rec [] h = tt
  next_stage-IsReleasing n now stage id rec (next ∷ rest) h =
      (refl, h, (iso_second (now + timeout), (refl, iso_second_le (now + timeout))))

  end_stage-IsReleasing :
      (n now : ℕ) (id : String) (rec : StagedHeld) (current : StagedHeldStage)
      (rest : List StagedHeldStage) (outcome : StageOutcome)
      → length rest ≤ n
      → IsReleasing n (now + timeout) (end_stage timeout now id rec current rest outcome).0
  end_stage-IsReleasing n now id rec current rest suppress h = tt
  end_stage-IsReleasing n now id rec current rest advance h =
      next_stage-IsReleasing n now current.stage id rec rest h

  is_stage_complete_past :
      (current : StagedHeldStage) (now : ℕ) (deadline : Option ℕ) {at : ℕ}
      → deadline ≡ some at
      → at ≤ now
      → is_stage_complete current now deadline ≡ true
  unfolding is_stage_complete
  is_stage_complete_past current now deadline {at} e h =
      rw (e, le→leb at now h) (or_true (is_empty current.pending_device_ids) _)
    where
      or_true : (a b : Bool) → (a || true || b) ≡ true
      or_true true b = refl
      or_true false b = refl

  tick_stages-IsReleasing :
      (n now : ℕ) (id : String) (rec : StagedHeld) (stages : List StagedHeldStage) {at : ℕ}
      → is_empty stages ≡ false
      → length stages ≤ suc n
      → rec.deadline ≡ some at
      → at ≤ now
      → IsReleasing n (now + timeout) (tick_stages timeout now id rec stages).0
  tick_stages-IsReleasing n now id rec [] h l e le = absurd (cc)
  tick_stages-IsReleasing n now id rec (current ∷ rest) h l e le =
      rw (is_stage_complete_past current now rec.deadline e le)
        (end_stage-IsReleasing n now id rec current rest _ (omega (arith, l)))

  left_of-IsReleasing :
      (n due now : ℕ) (id : String) (o : Option StagedHeld)
      → IsReleasing (suc n) due o
      → due ≤ now
      → IsReleasing n (now + timeout) (left_of timeout now id o)
  unfolding tick_held
  left_of-IsReleasing n due now id none h le = tt
  left_of-IsReleasing n due now id (some rec) (busy, l, (at, (e, early))) le =
      tick_stages-IsReleasing n now id rec rec.stages busy l e (omega (arith, early, le))

  vote_at-IsReleasing :
      (n due : ℕ) (d : Disposition) (rec : StagedHeld) (stages : List StagedHeldStage)
      → rec.stages ≡ stages
      → IsReleasing n due (some rec)
      → IsReleasing n due (or_still (vote_at d rec stages) (some rec))
  vote_at-IsReleasing n due d rec [] e h = h
  vote_at-IsReleasing n due d rec (current ∷ rest) e (busy, l, time) =
      elim (Bool-cases (includes d.device_id current.pending_device_ids)) [
        | inl mine ↦ rw mine (refl, subst (λ ss. length ss ≤ n) e l, time)
        | inr other ↦ rw other (busy, l, time)
      ]

  ballot-IsReleasing :
      (n due : ℕ) (submitter : String) (d : Disposition) (o : Option StagedHeld)
      → IsReleasing n due o
      → IsReleasing n due (or_still (ballot submitter d o) o)
  ballot-IsReleasing n due submitter d o h =
      ballot_keeps (IsReleasing n due) o h submitter d (vote_in-IsReleasing o h)
    where
      vote_in-IsReleasing :
          (o : Option StagedHeld)
          → IsReleasing n due o
          → IsReleasing n due (or_still (vote_in d o) o)
      vote_in-IsReleasing none h = tt
      vote_in-IsReleasing (some rec) h = vote_at-IsReleasing n due d rec rec.stages refl h

  envelope_run-IsReleasing :
      (n due : ℕ) (id : String) (es : List Event) (o : Option StagedHeld)
      → IsSpaced timeout id due es
      → n ≤ count_ticks es
      → IsReleasing n due o
      → envelope_run timeout id es o ≡ none
  unfolding envelope_run envelope_step
  envelope_run-IsReleasing n due id [] none s l h = refl
  envelope_run-IsReleasing n due id [] (some rec) s l (busy, m, time) =
      absurd (no_stages rec.stages busy (omega (arith, m, l)))
    where
      no_stages : (ss : List StagedHeldStage) → is_empty ss ≡ false → length ss ≤ 0 → ⊥
      no_stages [] e h = cc
      no_stages (x ∷ ss) e h = omega (arith, h)
  envelope_run-IsReleasing zero due id (ticked now hook ∷ es) o s l h =
      envelope_run-IsReleasing 0 (now + timeout) id es (left_of timeout now id o) s.1 (omega arith)
        (left_of-IsReleasing 0 due now id o (weaker o h) s.0)
    where
      weaker : (o : Option StagedHeld) → IsReleasing 0 due o → IsReleasing 1 due o
      weaker none h = tt
      weaker (some rec) (busy, m, time) = (busy, omega (arith, m), time)
  envelope_run-IsReleasing (suc n) due id (ticked now hook ∷ es) o s l h =
      envelope_run-IsReleasing n (now + timeout) id es (left_of timeout now id o) s.1
        (omega (arith, l)) (left_of-IsReleasing n due now id o h s.0)
  envelope_run-IsReleasing n due id (voted k submitter d ∷ es) o s l h =
      envelope_run-IsReleasing n due id es _ s l (voted_if (str_eq k id))
    where
      voted_if : (b : Bool) → IsReleasing n due (if b then or_still (ballot submitter d o) o else o)
      voted_if true = ballot-IsReleasing n due submitter d o h
      voted_if false = h
  envelope_run-IsReleasing n due id (reevaluated k stages ∷ es) o s l h =
      rw s.0 (envelope_run-IsReleasing n due id es o s.1 l h)
  envelope_run-IsReleasing n due id (held now k stages delivered ∷ es) o s l h =
      rw s.0 (envelope_run-IsReleasing n due id es o s.1 l h)

  -- No envelope waits for ever on silent devices: one that is held with at least one stage and a
  -- deadline is released by as many ticks as it has stages, the first not before its deadline and
  -- each later one a timeout after the one before, whatever votes and other envelopes come between.
  pub run-releases :
      (id : String) (rec : StagedHeld) (due : ℕ) (es : List Event) (s : Held)
      → IsMap s
      → lookup id s ≡ some rec
      → is_empty rec.stages ≡ false
      → rec.deadline ≡ some due
      → IsSpaced timeout id due es
      → length rec.stages ≤ count_ticks es
      → is_held id (run timeout es s) ≡ false
  unfolding is_held
  run-releases id rec due es s h found busy deadline spaced enough =
      let gone : lookup id (run timeout es s) ≡ none =
        lookup-run timeout id es s h
        ∙ ap (envelope_run timeout id es) found
        ∙ envelope_run-IsReleasing (length rec.stages) due id es (some rec) spaced enough
            (busy, (omega arith), (due, (deadline, omega arith))) in
      rw gone refl
