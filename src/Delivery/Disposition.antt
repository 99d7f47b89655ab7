-- ===== src/Delivery/Disposition.antt =====
-- src/delivery/disposition.ts: the vote of a device on a held envelope, and the end of a stage's wait.
use semp_ts.Common.{
  ℕ, String, Bool, true, false, Option, none, some, List, [], ◌∷◌, leb, str_eq, not, ◌&&◌, ◌||◌,
  if◌then◌else◌, Fallible, throw_if, ◌>>◌,
}

-- An absent decision is the empty text.
pub record Disposition : Type 0 where
  pub kind : String
  pub source_envelope_id : String
  pub disposition : String
  pub device_id : String

pub data DispositionError : Type 0 where
  wrong_kind missing_source_envelope_id missing_device_id : DispositionError
  missing_decision unknown_decision : DispositionError

unfoldable pub validate_disposition : Disposition → Fallible DispositionError (Unit {0})
validate_disposition d = do
  throw_if (not (str_eq d.kind "delivery-disposition")) wrong_kind
  throw_if (str_eq d.source_envelope_id "") missing_source_envelope_id
  throw_if (str_eq d.device_id "") missing_device_id
  throw_if (str_eq d.disposition "") missing_decision
  throw_if (not (str_eq d.disposition "advance") && not (str_eq d.disposition "suppress"))
      unknown_decision

pub data StageOutcome : Type 0 where
  advance suppress : StageOutcome

unfoldable pub aggregate_dispositions : List Disposition → StageOutcome
aggregate_dispositions [] = advance
aggregate_dispositions (d ∷ ds) =
    if str_eq d.disposition "suppress" then suppress else aggregate_dispositions ds

abbrev pub default_stage_timeout_ms : ℕ
default_stage_timeout_ms = 30000

pub record StagedHeldStage : Type 0 where
  pub stage : ℕ
  pub pending_device_ids : List String
  pub dispositions : List Disposition

-- No deadline where its text is empty or cannot be read.
pub record StagedHeld : Type 0 where
  pub envelope_id : String
  pub stages : List StagedHeldStage
  pub deadline : Option ℕ

-- Whether a disposition of the device is among them.
unfoldable pub has_emitted : String → List Disposition → Bool
has_emitted id [] = false
has_emitted id (d ∷ ds) = str_eq d.device_id id || has_emitted id ds

unfoldable pub all_emitted : List String → List Disposition → Bool
unfolding has_emitted
all_emitted [] ds = true
all_emitted (id ∷ ids) ds = has_emitted id ds && all_emitted ids ds

abbrev pub is_past : ℕ → Option ℕ → Bool
is_past now none = false
is_past now (some at) = leb at now

-- `ids.length === 0`
abbrev pub is_empty {ℓ} : {A : Type ℓ} → List A → Bool
is_empty [] = true
is_empty (x ∷ xs) = false

unfoldable pub is_stage_complete : StagedHeldStage → ℕ → Option ℕ → Bool
unfolding all_emitted
is_stage_complete stage now deadline =
    is_empty stage.pending_device_ids
    || is_past now deadline
    || all_emitted stage.pending_device_ids stage.dispositions
