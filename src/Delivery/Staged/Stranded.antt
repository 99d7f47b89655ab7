-- ===== src/Delivery/Staged/Stranded.antt =====
-- A held envelope whose stages a re-evaluation has taken away.
use semp_ts.Common.{
  ℕ, String, ◌≡◌, refl, sym, ap, ◌∙◌, Bool, true, false, Option, some, List, [], ◌∷◌, str_eq,
  if◌then◌else◌, not, leb, lookup, insert, IsMap, All, subst, Fallible, ok, throw, throw_if, ◌>>◌,
  All-sort_by, All-select_by, bind_parts, then_parts, insert-IsMap, lookup-insert, ok-injective,
}
use text.Mathlib.TextEquality.{eq_iff}
use semp_ts.Delivery.Disposition.{StagedHeld, StagedHeldStage, Disposition, is_empty}
use semp_ts.Delivery.Staged.{
  Held, StagedError, is_held, is_held_in, reevaluate, reevaluate_in, reevaluate_stages,
  reevaluate_empty_envelope_id, rebuilt, stage_before, hold_checked, cleaned, is_increasing,
  hold_empty_envelope_id, no_pending_devices, not_increasing, ballot,
}
use semp_ts.Delivery.Staged.Rounds.{tick_held}
use semp_ts.Delivery.Staged.Runs.{
  Event, ticked, voted, reevaluated, held, or_still, held_new, envelope_step, envelope_run, run,
  lookup-run, ballot_keeps, guard_keeps,
}

-- Held without a stage.
IsStranded : Option StagedHeld → Type 0
IsStranded o = (rec : StagedHeld) × ((o ≡ some rec) × (rec.stages ≡ []))

module _ (timeout : ℕ) where
  hold_guard :
      (o : Option StagedHeld) (delivered : Bool) (guard : Fallible StagedError (Unit {0}))
      (answer : Fallible StagedError StagedHeld)
      → held_new timeout delivered answer o ≡ o
      → held_new timeout delivered (guard >> answer) o ≡ o
  hold_guard o delivered (throw e) answer h = refl
  hold_guard o delivered (ok u) answer h = h

  -- An envelope that is held cannot be held again.
  hold_refused :
      (now : ℕ) (id : String) (stages : List StagedHeldStage) (delivered : Bool) (rec : StagedHeld)
      → held_new timeout delivered (hold_checked timeout now id stages (some rec)) (some rec)
        ≡ some rec
  unfolding hold_checked
  hold_refused now id stages delivered rec =
      let o : Option StagedHeld = some rec in
      hold_guard o delivered (throw_if (str_eq id "") hold_empty_envelope_id) _ (
        hold_guard o delivered (throw_if (is_empty (cleaned stages)) no_pending_devices) _ (
          hold_guard o delivered (throw_if (not (is_increasing (cleaned stages))) not_increasing) _
            refl))

  step-IsStranded :
      (id : String) (e : Event) (rec : StagedHeld)
      → rec.stages ≡ []
      → envelope_step timeout id e (some rec) ≡ some rec
  unfolding envelope_step tick_held
  step-IsStranded id (ticked now hook) rec h = rw h refl
  step-IsStranded id (voted k submitter d) rec h = go (str_eq k id)
    where
      go :
          (b : Bool)
          → (if b then or_still (ballot submitter d (some rec)) (some rec) else some rec) ≡ some rec
      go true = ballot_keeps (λ o. o ≡ some rec) (some rec) refl submitter d (rw h refl)
      go false = refl
  step-IsStranded id (reevaluated k stages) rec h = go (str_eq k id)
    where
      go :
          (b : Bool)
          → (if b
              then or_still
                  (throw_if (str_eq k "") reevaluate_empty_envelope_id
                    >> reevaluate_in stages (some rec))
                  (some rec)
              else some rec)
            ≡ some rec
      go true =
          guard_keeps (λ o. o ≡ some rec) (some rec) refl
            (throw_if (str_eq k "") reevaluate_empty_envelope_id) _ (rw h refl)
      go false = refl
  step-IsStranded id (held now k stages delivered) rec h = go (str_eq k id)
    where
      go :
          (b : Bool)
          → (if b
              then held_new timeout delivered
                  (hold_checked timeout now k stages (some rec))
                  (some rec)
              else some rec)
            ≡ some rec
      go true = hold_refused now k stages delivered rec
      go false = refl

  run-IsStranded :
      (id : String) (es : List Event) (rec : StagedHeld)
      → rec.stages ≡ []
      → envelope_run timeout id es (some rec) ≡ some rec
  unfolding envelope_run
  run-IsStranded id [] rec h = refl
  run-IsStranded id (e ∷ es) rec h =
      ap (envelope_run timeout id es) (step-IsStranded id e rec h) ∙ run-IsStranded id es rec h

rebuilt_nothing :
    (stage : ℕ) (ds : List Disposition) (ss : List StagedHeldStage)
    → All (λ s. is_empty s.pending_device_ids ≡ true) ss
    → rebuilt stage ds ss ≡ []
unfolding rebuilt
rebuilt_nothing stage ds [] h = refl
rebuilt_nothing stage ds (s ∷ ss) h = rw h.0 (rebuilt_nothing stage ds ss h.1)

reevaluate_stages_lem :
    (new_stages : List StagedHeldStage) (rec : StagedHeld) (stages : List StagedHeldStage)
    → rec.stages ≡ stages
    → All (λ s. is_empty s.pending_device_ids ≡ true) new_stages
    → (reevaluate_stages new_stages rec stages).stages ≡ []
reevaluate_stages_lem new_stages rec [] e h = e
reevaluate_stages_lem new_stages rec (current ∷ rest) e h =
    rebuilt_nothing current.stage current.dispositions _ (
      All-sort_by (λ s. is_empty s.pending_device_ids ≡ true) stage_before _
        (All-select_by (λ s. is_empty s.pending_device_ids ≡ true) (λ s. leb current.stage s.stage)
          new_stages h))

-- An envelope that is re-evaluated to a partition without devices is held for good: no ticks, votes,
-- re-evaluations and holds that follow release it.
pub reevaluate-strands :
    (timeout : ℕ) (id : String) (new_stages : List StagedHeldStage) (rec : StagedHeld)
    (s after : Held) (es : List Event)
    → IsMap s
    → lookup id s ≡ some rec
    → All (λ t. is_empty t.pending_device_ids ≡ true) new_stages
    → reevaluate id new_stages s ≡ ok after
    → is_held id (run timeout es after) ≡ true
unfolding reevaluate is_held
reevaluate-strands timeout id new_stages rec s after es h found nothing done =
    let (rec', first, last) = bind_parts _ (λ r. ok (insert id r s)) done in
    let (_, answer) = then_parts (throw_if (str_eq id "") reevaluate_empty_envelope_id) _ first in
    let new : reevaluate_stages new_stages rec rec.stages ≡ rec' =
      ok-injective (sym (ap (reevaluate_in new_stages) found) ∙ answer) in
    let bare : rec'.stages ≡ [] =
      ap (λ r. r.stages) (sym new) ∙ reevaluate_stages_lem new_stages rec rec.stages refl nothing in
    let same : str_eq id id ≡ true = (eq_iff id id).1 refl in
    let stands : lookup id (insert id rec' s) ≡ some rec' =
      lookup-insert id id rec' s ∙ rw same refl in
    let ends : lookup id (run timeout es (insert id rec' s)) ≡ some rec' =
      lookup-run timeout id es (insert id rec' s) (insert-IsMap id rec' s h)
      ∙ ap (envelope_run timeout id es) stands
      ∙ run-IsStranded timeout id es rec' bare in
    subst (λ t. is_held_in (lookup id (run timeout es t)) ≡ true) (ok-injective last) (rw ends refl)
