-- ===== src/Delivery/Queue.antt =====
-- src/delivery/queue.ts: the state record of one (envelope, recipient) pair. A timestamp is its time
-- in milliseconds; the ISO text that the source stores drops the part below a second.
use semp_ts.Common.{ℕ, ◌-◌, ◌%◌, String, Bool, true, false, Option, none, some, if◌then◌else◌, not}

pub data RecordState : Type 0 where
  queued delivered rejected expired canceled : RecordState

unfoldable pub is_terminal_state : RecordState → Bool
is_terminal_state queued = false
is_terminal_state _ = true

pub data Outcome : Type 0 where
  delivered rejected silent : Outcome

pub record QueueState : Type 0 where
  pub envelope_id : String
  pub recipient : String
  pub state : RecordState
  pub attempts : ℕ
  pub last_attempt_at : Option ℕ
  pub last_outcome : Option Outcome
  pub last_reason_code : Option String
  pub next_attempt_at : Option ℕ
  pub deadline : ℕ
  pub terminal_at : Option ℕ

-- d.toISOString() without its milliseconds.
abbrev pub iso_second : ℕ → ℕ
iso_second t = t - t % 1000

unfoldable pub set_terminal : RecordState → ℕ → QueueState → QueueState
unfolding is_terminal_state
set_terminal state now q =
    if not (is_terminal_state state)
    then q
    else if is_terminal_state q.state
    then q
    else record q { state = state; next_attempt_at = none; terminal_at = some (iso_second now) }
