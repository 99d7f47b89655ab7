-- ===== src/Delivery/Staged/Rounds.antt =====
-- src/delivery/staged_runner.ts: the tick of StagedRunner.
use Prim.Native.String
use Prim.Native.Nat.{Ordering}
use semp_ts.Common.{
  ℕ, ◌+◌, String, Bool, true, false, Option, none, some, List, [], ◌∷◌, not, if◌then◌else◌, sort_by,
  length,
}
use semp_ts.Delivery.Disposition.{
  StageOutcome, advance, suppress, aggregate_dispositions, StagedHeldStage, StagedHeld,
  is_stage_complete,
}
use semp_ts.Delivery.Staged.{Held, iso_second}

-- An envelope that a tick has taken up, for its hook.
pub data Pending : Type 0 where
  suppressed completed : String → ℕ → Pending
  moved : String → ℕ → ℕ → List String → Pending

abbrev pub id_of : Pending → String
id_of (suppressed id stage) = id
id_of (completed id stage) = id
id_of (moved id stage next_stage next_devs) = id

-- The order of the hooks: by the envelope's id.
unfoldable pub id_before : Pending → Pending → Bool
id_before p q = elim (String.compare (id_of p) (id_of q)) [ Ordering.gt ↦ false | _ ↦ true ]

-- What a tick makes of a held envelope: what stays of it, and what is to be run.
abbrev pub Round : Type 0
Round = Option StagedHeld × Option Pending

abbrev pub next_stage : ℕ → ℕ → String → StagedHeld → ℕ → List StagedHeldStage → Round
next_stage timeout now id rec stage [] = (none, some (completed id stage))
next_stage timeout now id rec stage (next ∷ rest) = (
  some (record rec { stages = next ∷ rest; deadline = some (iso_second (now + timeout)) }),
  some (moved id stage next.stage next.pending_device_ids),
)

abbrev pub end_stage :
    ℕ → ℕ → String → StagedHeld → StagedHeldStage → List StagedHeldStage → StageOutcome → Round
end_stage timeout now id rec current rest suppress = (none, some (suppressed id current.stage))
end_stage timeout now id rec current rest advance = next_stage timeout now id rec current.stage rest

abbrev pub tick_stages : ℕ → ℕ → String → StagedHeld → List StagedHeldStage → Round
tick_stages timeout now id rec [] = (some rec, none)
tick_stages timeout now id rec (current ∷ rest) =
    if not (is_stage_complete current now rec.deadline)
    then (some rec, none)
    else end_stage timeout now id rec current rest (aggregate_dispositions current.dispositions)

-- A round of the loop of `tick`.
unfoldable pub tick_held : ℕ → ℕ → String → StagedHeld → Round
tick_held timeout now id rec = tick_stages timeout now id rec rec.stages

abbrev pub keep_held : String → Option StagedHeld → Held → Held
keep_held id none s = s
keep_held id (some rec) s = (id, rec) ∷ s

abbrev pub keep_pending : Option Pending → List Pending → List Pending
keep_pending none ps = ps
keep_pending (some p) ps = p ∷ ps

unfoldable pub tick_map : ℕ → ℕ → Held → Held × List Pending
tick_map timeout now [] = ([], [])
tick_map timeout now (e ∷ s) =
    let r = tick_held timeout now e.0 e.1 in
    let rest = tick_map timeout now s in (keep_held e.0 r.0 rest.0, keep_pending r.1 rest.1)

abbrev pub or_first : Option String → Option String → Option String
or_first none later = later
or_first (some e) later = some e

-- The hooks in order: each may fail, and the first error is kept.
unfoldable pub run_hooks : (Pending → Option String) → List Pending → Option String
run_hooks hook [] = none
run_hooks hook (p ∷ ps) = or_first (hook p) (run_hooks hook ps)

pub record TickResult : Type 0 where
  pub advanced : ℕ
  pub first_error : Option String

-- The runner is changed before the first hook is called.
unfoldable pub tick : ℕ → ℕ → (Pending → Option String) → Held → Held × TickResult
unfolding tick_map run_hooks
tick timeout now hook s =
    let (s', to_run) = tick_map timeout now s in
    (
      s',
      record { advanced = length to_run; first_error = run_hooks hook (sort_by id_before to_run) },
    )
