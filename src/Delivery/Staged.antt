-- ===== src/Delivery/Staged.antt =====
-- src/delivery/staged_runner.ts: StagedRunner, its held envelopes by id. The hooks are awaited calls of
-- the caller: what they answer, and what other calls do to the runner meanwhile, are parameters.
pub mod Rounds
pub mod Tick
pub mod Runs
pub mod Ends
pub mod Taken
pub mod Votes
pub mod Stranded
mod Tests
use semp_ts.Common.{
  ℕ, ◌+◌, ◌*◌, ◌/◌, String, Bool, true, false, Option, none, some, List, [], ◌∷◌, ◌++◌, leb, ltb,
  ◌==◌, str_eq, not, ◌&&◌, ◌||◌, if◌then◌else◌, lookup, insert, remove, sort_by, select_by, length,
  Fallible, ok, throw, throw_if, ◌>>=◌, ◌>>◌,
}
use semp_ts.Delivery.Disposition.{
  Disposition, DispositionError, validate_disposition, StageOutcome, advance, suppress,
  aggregate_dispositions, StagedHeldStage, StagedHeld, has_emitted, is_empty, is_stage_complete,
  default_stage_timeout_ms,
}

abbrev pub Held : Type 0
Held = List (String × StagedHeld)

pub data StagedError : Type 0 where
  hold_empty_envelope_id no_pending_devices not_increasing already_held deliver_failed : StagedError
  no_submitter wrong_submitter no_held_envelope no_remaining_stages not_pending : StagedError
  reevaluate_empty_envelope_id not_held : StagedError
  bad_disposition : DispositionError → StagedError

-- The constructor's choice: a timeout of 0 or none is the default.
unfoldable pub stage_timeout : Option ℕ → ℕ
stage_timeout none = default_stage_timeout_ms
stage_timeout (some ms) = if ltb 0 ms then ms else default_stage_timeout_ms

-- isoSecond: the time cut to its second.
unfoldable pub iso_second : ℕ → ℕ
iso_second ms = (ms / 1000) * 1000

abbrev pub fresh : StagedHeldStage → StagedHeldStage
fresh s = record s { dispositions = [] }

-- The stages that have a device, without their dispositions.
unfoldable pub cleaned : List StagedHeldStage → List StagedHeldStage
cleaned [] = []
cleaned (s ∷ ss) = if is_empty s.pending_device_ids then cleaned ss else fresh s ∷ cleaned ss

unfoldable pub is_increasing : List StagedHeldStage → Bool
is_increasing [] = true
is_increasing (s ∷ []) = true
is_increasing (s ∷ t ∷ ss) = ltb s.stage t.stage && is_increasing (t ∷ ss)

abbrev pub is_held_in : Option StagedHeld → Bool
is_held_in none = false
is_held_in (some rec) = true

unfoldable pub is_held : String → Held → Bool
is_held id s = is_held_in (lookup id s)

unfoldable pub size : Held → ℕ
size s = length s

-- The end of `hold`, when the delivery to the first stage has answered.
abbrev pub after_deliver : String → Bool → Held → Held × Fallible StagedError (Unit {0})
after_deliver id true s = (s, ok tt)
after_deliver id false s = (remove id s, throw deliver_failed)

abbrev pub with_hold :
    String
    → Bool
    → (Held → Held)
    → Held
    → Fallible StagedError StagedHeld
    → Held × Fallible StagedError (Unit {0})
with_hold id delivered meanwhile s (throw e) = (s, throw e)
with_hold id delivered meanwhile s (ok rec) =
    after_deliver id delivered (meanwhile (insert id rec s))

module _ (timeout : ℕ) where
  -- The record of `hold`, or what it throws before it changes the runner.
  unfoldable pub hold_checked :
      ℕ → String → List StagedHeldStage → Option StagedHeld → Fallible StagedError StagedHeld
  unfolding cleaned is_increasing iso_second
  hold_checked now id stages found = do
    throw_if (str_eq id "") hold_empty_envelope_id
    throw_if (is_empty (cleaned stages)) no_pending_devices
    throw_if (not (is_increasing (cleaned stages))) not_increasing
    throw_if (is_held_in found) already_held
    ok (record {
      envelope_id = id;
      stages = cleaned stages;
      deadline = some (iso_second (now + timeout));
    })

  unfoldable pub hold :
      ℕ
      → String
      → List StagedHeldStage
      → Bool
      → (Held → Held)
      → Held
      → Held × Fallible StagedError (Unit {0})
  unfolding hold_checked
  hold now id stages delivered meanwhile s =
      with_hold id delivered meanwhile s (hold_checked now id stages (lookup id s))

-- `pending_device_ids.includes(id)`
unfoldable pub includes : String → List String → Bool
includes id [] = false
includes id (x ∷ xs) = str_eq x id || includes id xs

-- The vote at the current stage; a device that has voted keeps its first vote.
abbrev pub vote : Disposition → StagedHeldStage → StagedHeldStage
vote d current =
    if has_emitted d.device_id current.dispositions
    then current
    else record current { dispositions = current.dispositions ++ d ∷ [] }

abbrev pub vote_at :
    Disposition → StagedHeld → List StagedHeldStage → Fallible StagedError StagedHeld
vote_at d rec [] = throw no_remaining_stages
vote_at d rec (current ∷ rest) =
    if includes d.device_id current.pending_device_ids
    then ok (record rec { stages = vote d current ∷ rest })
    else throw not_pending

abbrev pub vote_in : Disposition → Option StagedHeld → Fallible StagedError StagedHeld
vote_in d none = throw no_held_envelope
vote_in d (some rec) = vote_at d rec rec.stages

abbrev pub or_bad_disposition :
    Fallible DispositionError (Unit {0}) → Fallible StagedError (Unit {0})
or_bad_disposition (throw e) = throw (bad_disposition e)
or_bad_disposition (ok u) = ok tt

-- What `ingestDisposition` makes of the record, or what it throws.
unfoldable pub ballot : String → Disposition → Option StagedHeld → Fallible StagedError StagedHeld
unfolding validate_disposition
ballot submitter d rec = do
  or_bad_disposition (validate_disposition d)
  throw_if (str_eq submitter "") no_submitter
  throw_if (not (str_eq submitter d.device_id)) wrong_submitter
  vote_in d rec

unfoldable pub ingest_disposition : String → String → Disposition → Held → Fallible StagedError Held
unfolding ballot
ingest_disposition id submitter d s =
    ballot submitter d (lookup id s) >>= λ rec. ok (insert id rec s)

unfoldable pub stage_before : StagedHeldStage → StagedHeldStage → Bool
stage_before s t = leb s.stage t.stage

-- The stages of `reevaluate`, with the dispositions of the current stage.
unfoldable pub rebuilt : ℕ → List Disposition → List StagedHeldStage → List StagedHeldStage
rebuilt current_stage prior [] = []
rebuilt current_stage prior (s ∷ ss) =
    let rest = rebuilt current_stage prior ss in
    if is_empty s.pending_device_ids
    then rest
    else record s { dispositions = if s.stage == current_stage then prior else [] } ∷ rest

abbrev pub reevaluate_stages : List StagedHeldStage → StagedHeld → List StagedHeldStage → StagedHeld
reevaluate_stages new_stages rec [] = rec
reevaluate_stages new_stages rec (current ∷ rest) = record rec {
  stages =
      rebuilt current.stage current.dispositions
        (sort_by stage_before (select_by (λ s. leb current.stage s.stage) new_stages));
}

abbrev pub reevaluate_in :
    List StagedHeldStage → Option StagedHeld → Fallible StagedError StagedHeld
reevaluate_in new_stages none = throw not_held
reevaluate_in new_stages (some rec) = ok (reevaluate_stages new_stages rec rec.stages)

unfoldable pub reevaluate : String → List StagedHeldStage → Held → Fallible StagedError Held
unfolding rebuilt
reevaluate id new_stages s =
    (throw_if (str_eq id "") reevaluate_empty_envelope_id >> reevaluate_in new_stages (lookup id s))
    >>= λ rec. ok (insert id rec s)
