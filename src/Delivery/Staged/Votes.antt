-- ===== src/Delivery/Staged/Votes.antt =====
-- A vote to suppress: no later vote takes it back, and the stage does not let the envelope on.
use semp_ts.Common.{ℕ, String, ◌≡◌, Option, none, some, List, [], ◌∷◌}
use semp_ts.Delivery.Disposition.{
  Disposition, StagedHeld, StagedHeldStage, suppress, aggregate_dispositions,
}
use semp_ts.Delivery.Staged.{Held, vote}
use semp_ts.Delivery.Staged.Taken.{IsTaken}
use semp_ts.Delivery.Staged.Runs.{Event, ticked, voted, reevaluated, held}

-- The first of the stages is this one, and has a vote to suppress.
IsVetoed : ℕ → List StagedHeldStage → Type 0
IsVetoed stage [] = ⊥
IsVetoed stage (current ∷ rest) =
    (current.stage ≡ stage) × (aggregate_dispositions current.dispositions ≡ suppress)

IsVetoedIn : ℕ → Option StagedHeld → Type 0
IsVetoedIn stage none = ⊥
IsVetoedIn stage (some rec) = IsVetoed stage rec.stages

-- Votes alone, on any envelopes.
abbrev pub IsVotes : List Event → Type 0
IsVotes [] = Unit
IsVotes (voted k submitter d ∷ es) = IsVotes es
IsVotes (ticked now hook ∷ es) = ⊥
IsVotes (reevaluated k stages ∷ es) = ⊥
IsVotes (held now k stages delivered ∷ es) = ⊥

-- The record with the vote.
abbrev voted_rec :
    (id submitter : String) (d : Disposition) (s after : Held)
    → IsTaken id submitter d s after
    → StagedHeld
voted_rec id submitter d s after t = record t.rec { stages = vote d t.current ∷ t.rest }
