-- ===== src/Delivery/Staged/Taken.antt =====
-- What a disposition that is taken in has passed.
use semp_ts.Common.{String, ◌≡◌, true, some, List, ◌∷◌, lookup, ok, insert}
use semp_ts.Delivery.Disposition.{Disposition, StagedHeld, StagedHeldStage, validate_disposition}
use semp_ts.Delivery.Staged.{Held, vote, includes}

-- What a vote that is taken in has passed: it is valid, comes from the session of the device that it
-- names, and that device is awaited at the current stage of the envelope, which is held.
pub record IsTaken (id submitter : String) (d : Disposition) (s after : Held) : Type 0 where
  pub valid : validate_disposition d ≡ ok tt
  pub own_session : submitter ≡ d.device_id
  pub rec : StagedHeld
  pub current : StagedHeldStage
  pub rest : List StagedHeldStage
  pub found : lookup id s ≡ some rec
  pub stages : rec.stages ≡ current ∷ rest
  pub awaited : includes d.device_id current.pending_device_ids ≡ true
  pub changed : after ≡ insert id (record rec { stages = vote d current ∷ rest }) s
