-- ===== src/Delivery/Submission.antt =====
-- src/delivery/submission.ts: the event that reports a record's end to the client.
use semp_ts.Common.Maps.{lookup}
use semp_ts.Common.{ℕ, String, List, Option, Fallible, ok, throw_if, ◌>>◌, str_eq}
use semp_ts.Delivery.Queue.{iso_second}
use semp_ts.Delivery.Ack.{Acknowledgment}

pub data EventStatus : Type 0 where
  delivered rejected : EventStatus

pub record SubmissionEvent : Type 0 where
  pub envelope_id : String
  pub recipient : String
  pub status : EventStatus
  pub reason_code : Option String
  pub reason : Option String
  pub timestamp : ℕ

-- The object of options: its texts by the names of their properties, and what its `nowFn`, or else
-- the clock, returns.
pub record EventOptions : Type 0 where
  pub texts : List (String × String)
  pub now : ℕ

pub data SubmissionError : Type 0 where
  empty_envelope_id empty_recipient : SubmissionError

unfoldable pub new_submission_event :
    String → String → EventStatus → EventOptions → Fallible SubmissionError SubmissionEvent
new_submission_event envelope_id recipient status opts = do
  throw_if (str_eq envelope_id "") empty_envelope_id
  throw_if (str_eq recipient "") empty_recipient
  ok (record {
    envelope_id = envelope_id;
    recipient = recipient;
    status = status;
    reason_code = lookup "reason_code" opts.texts;
    reason = lookup "reason" opts.texts;
    timestamp = iso_second opts.now;
  })

pub data SubmissionStatus : Type 0 where
  delivered rejected silent queued no_receipt : SubmissionStatus

unfoldable pub status_of : Acknowledgment → SubmissionStatus
status_of Acknowledgment.delivered = SubmissionStatus.delivered
status_of Acknowledgment.rejected = SubmissionStatus.rejected
status_of Acknowledgment.silent = SubmissionStatus.silent

-- The receipt, which only an accepting server adds, is left out.
pub record SubmissionResult : Type 0 where
  pub recipient : String
  pub status : SubmissionStatus
  pub reason_code : Option String
  pub reason : Option String
