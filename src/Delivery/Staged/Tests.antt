-- ===== src/Delivery/Staged/Tests.antt =====
-- An envelope with two stages, with the theorems at it.
use semp_ts.Common.{String, ◌≡◌, refl, true, false, Option, none, some, [], ◌∷◌, insert, ok, arith}
use semp_ts.Delivery.Disposition.{Disposition, StagedHeld, StagedHeldStage}
use semp_ts.Delivery.Staged.{Held, reevaluate, rebuilt, is_held}
use semp_ts.Delivery.Staged.Rounds.{Pending}
use semp_ts.Delivery.Staged.Runs.{ticked, voted, run}
use semp_ts.Delivery.Staged.Ends.{run-releases}
use semp_ts.Delivery.Staged.Stranded.{reevaluate-strands}

abbrev first_stage : StagedHeldStage
first_stage = record { stage = 1; pending_device_ids = "filter" ∷ []; dispositions = [] }

abbrev second_stage : StagedHeldStage
second_stage = record { stage = 2; pending_device_ids = "phone" ∷ []; dispositions = [] }

abbrev waiting : StagedHeld
waiting = record {
  envelope_id = "e1";
  stages = first_stage ∷ second_stage ∷ [];
  deadline = some 31000;
}

abbrev one_held : Held
one_held = ("e1", waiting) ∷ []

abbrev spam : Disposition
spam = record {
  kind = "delivery-disposition";
  source_envelope_id = "e1";
  disposition = "suppress";
  device_id = "filter";
}

abbrev no_error : Pending → Option String
no_error p = none

abbrev after_spam : Held
after_spam =
    insert "e1"
      (record waiting {
        stages = record first_stage { dispositions = spam ∷ [] } ∷ second_stage ∷ [];
      })
      one_held

run-releases_example :
    is_held "e1" (
      run 30000
        (ticked 31000 no_error ∷ voted "e1" "phone" spam ∷ ticked 61500 no_error ∷ [])
        one_held)
    ≡ false
run-releases_example =
    run-releases 30000 "e1" waiting 31000
      (ticked 31000 no_error ∷ voted "e1" "phone" spam ∷ ticked 61500 no_error ∷ []) one_held
      (refl, tt) refl refl refl (omega arith, (omega arith, tt)) (omega arith)

abbrev bare : Held
bare = insert "e1" (record waiting { stages = [] }) one_held

revoked : reevaluate "e1" [] one_held ≡ ok bare
unfolding reevaluate rebuilt
revoked = refl

reevaluate-strands_example :
    is_held "e1" (run 30000 (ticked 31000 no_error ∷ ticked 99000 no_error ∷ []) bare) ≡ true
reevaluate-strands_example =
    reevaluate-strands 30000 "e1" [] waiting one_held bare
      (ticked 31000 no_error ∷ ticked 99000 no_error ∷ []) (refl, tt) refl tt revoked
