-- ===== src/Delivery/Pipeline.antt =====
-- src/delivery/pipeline.ts: the receiving side's pipeline. The cryptography, JSON and text functions
-- that it calls are the fields of a `Platform`; a hook of the configuration is a function, or its
-- result where it takes no argument. Of the awaited hooks only `sessionRetired` may throw (none),
-- which the source catches. Reasons are constructors in place of texts; the log is left out.
pub mod Checks
pub mod Deliver
use semp_ts.Common.{
  ℕ, ◌+◌, ◌-◌, ◌*◌, String, Bool, true, false, ◌&&◌, ◌||◌, not, Option, none, some, List, [], ◌∷◌,
  ◌++◌, leb, ltb, str_eq, ◌==◌, if◌then◌else◌, lookup, Fallible, ok, throw, throw_if, ◌>>=◌, ◌>>◌,
  length, take, drop,
}
use semp_ts.Delivery.Ack.{Acknowledgment}
use semp_ts.Delivery.Blocklist.{BlockEntry, BlockListSender, match_block_list}
use semp_ts.Delivery.Inbox.{Inbox, InboxError, Payload, store}
use semp_ts.Delivery.Submission.{SubmissionResult, SubmissionStatus, status_of}

pub record Postmark : Type 0 where
  pub id : String
  pub from_domain : String
  pub session_id : String
  pub expires : Option String

-- The envelope; `enclosure` and the texts of the seal only matter to the platform.
pub record Envelope : Type 0 where
  pub postmark : Postmark
  pub algorithm : String
  pub brief_recipients : List (String × String)
  pub signature : String
  pub session_mac : String
  pub brief : String
  pub enclosure : String

-- `to` is none where it is not an array.
pub record DecodedBrief : Type 0 where
  pub to : Option (List String)
  pub cc : Option (List String)
  pub from : Option String

pub record RecipientCandidate : Type 0 where
  pub key_id : String
  pub private_key : Payload
  pub public_key : Payload

-- A function that may throw answers with its error's text.
pub record Platform : Type 0 where
  pub date_parse : String → Option ℕ
  pub lower : String → String
  pub trim : String → String
  pub after_at : String → String
  pub verify_seal : Envelope → Payload → Fallible String Bool
  pub verify_mac : Envelope → Payload → Fallible String Bool
  pub encode_envelope : Envelope → Payload
  pub unwrap : String → RecipientCandidate → String → Fallible String Payload
  pub base64_decode : String → Payload
  pub aead_open : Payload → Payload → Payload → String → Fallible String Payload
  pub parse_brief : Payload → Fallible String DecodedBrief

-- The answer of a policy hook; the flag of a refusal says that it is silent, not a rejection.
pub data Verdict : Type 0 where
  pass : Verdict
  refuse : Bool → String → Option String → Verdict

pub record PipelineConfig : Type 0 where
  pub env_mac : Option Payload
  pub domain_keys : Option (String → Option Payload)
  pub session_retired : Option (String → Option Bool)
  pub skip_signature_check : Bool
  pub skip_session_mac_check : Bool
  pub skip_expiry_check : Bool
  pub skip_session_id_check : Bool
  pub brief_recipients : List RecipientCandidate
  pub domain_policy : Option (String → Verdict)
  pub recipient_policy : Option (String → Verdict)
  pub block_list : Option (String → Option (List BlockEntry))
  pub is_local : String → Bool
  pub has_inbox : Bool
  pub now : ℕ
  pub clock_skew_ms : Option ℕ

pub data OpenError : Type 0 where
  empty_candidates unknown_algorithm no_matching_slot : OpenError
  every_candidate_failed : List (String × String) → OpenError

pub data Reason : Type 0 where
  no_key_lookup no_domain_key signature_unverified expires_unreadable expired : Reason
  empty_session_id retired_session no_mac_source empty_mac mac_unverified no_recipients : Reason
  seal_error mac_error : String → Reason
  domain_policy : Option String → Reason
  unopened : OpenError → Reason

pub record PipelineRejection : Type 0 where
  pub reason_code : String
  pub reason : Reason
  pub is_silent : Bool

abbrev pub reject : String → Reason → PipelineRejection
reject reason_code reason = record { reason_code = reason_code; reason = reason; is_silent = false }

pub record PipelineResult : Type 0 where
  pub envelope_id : String
  pub brief : Option DecodedBrief
  pub results : List SubmissionResult
  pub rejection : Option PipelineRejection

abbrev pub Check : Type 0
Check = Fallible PipelineRejection (Unit {0})

-- The answer of a verification: `text` is the reason code, and the reasons follow.
unfoldable pub demand : String → (String → Reason) → Reason → Fallible String Bool → Check
demand code failed unverified (throw e) = throw (reject code (failed e))
demand code failed unverified (ok true) = ok tt
demand code failed unverified (ok false) = throw (reject code unverified)

-- brief.cc ?? []
abbrev pub copies : Option (List String) → List String
copies none = []
copies (some cc) = cc

-- x ?? 15 * 60 * 1_000
abbrev pub tolerance : Option ℕ → ℕ
tolerance none = 15 * 60 * 1000
tolerance (some ms) = ms

module _ (platform : Platform) where
  unfoldable pub verify_signature : PipelineConfig → Envelope → Check
  unfolding demand
  verify_signature cfg env = elim cfg.domain_keys [
    | none ↦ throw (reject "seal_invalid" no_key_lookup)
    | some keys ↦ elim (keys env.postmark.from_domain) [
      | none ↦ throw (reject "seal_invalid" no_domain_key)
      | some public_key ↦
          if length public_key == 0
          then throw (reject "seal_invalid" no_domain_key)
          else demand "seal_invalid" seal_error signature_unverified
              (platform.verify_seal env public_key)
    ]
  ]

  unfoldable pub check_expiry : PipelineConfig → Envelope → Check
  check_expiry cfg env = elim env.postmark.expires [
    | none ↦ ok tt
    | some text ↦ if str_eq text "" then ok tt else elim (platform.date_parse text) [
      | none ↦ throw (reject "envelope_expired" expires_unreadable)
      | some expiry_ms ↦
          throw_if (ltb (tolerance cfg.clock_skew_ms) (cfg.now - expiry_ms))
            (reject "envelope_expired" expired)
    ]
  ]

  unfoldable pub check_session_id : PipelineConfig → Envelope → Check
  check_session_id cfg env =
      if str_eq (platform.trim env.postmark.session_id) ""
      then throw (reject "no_session" empty_session_id)
      else elim cfg.session_retired [
        | none ↦ ok tt
        | some retired ↦ elim (retired env.postmark.session_id) [
          | none ↦ ok tt
          | some is_retired ↦ throw_if is_retired (reject "handshake_invalid" retired_session)
        ]
      ]

  unfoldable pub check_session_mac : PipelineConfig → Envelope → Check
  unfolding demand
  check_session_mac cfg env = elim cfg.env_mac [
    | none ↦ throw (reject "session_mac_invalid" no_mac_source)
    | some mac ↦
        if length mac == 0
        then throw (reject "session_mac_invalid" empty_mac)
        else demand "session_mac_invalid" mac_error mac_unverified (platform.verify_mac env mac)
  ]

  unfoldable pub check_domain_policy : PipelineConfig → Envelope → Check
  check_domain_policy cfg env = elim cfg.domain_policy [
    | none ↦ ok tt
    | some policy ↦ elim (policy env.postmark.from_domain) [
      | pass ↦ ok tt
      | refuse is_silent code reason ↦ throw (record {
        reason_code = code;
        reason = Reason.domain_policy reason;
        is_silent = is_silent;
      })
    ]
  ]

  -- `openBriefOnly` with one candidate whose slot holds `wrapped`.
  unfoldable pub open_slot : Envelope → RecipientCandidate → String → Fallible String DecodedBrief
  open_slot env candidate wrapped = do
    k_brief ← platform.unwrap env.algorithm candidate wrapped
    let blob = platform.base64_decode env.brief
    throw_if (ltb (length blob) 12) "brief blob too short"
    plain ← platform.aead_open k_brief (take 12 blob) (drop 12 blob) env.postmark.id
    platform.parse_brief plain

  -- Its loop over the candidates, with the errors so far.
  unfoldable pub open_with :
      Envelope → List RecipientCandidate → List (String × String) → Fallible OpenError DecodedBrief
  unfolding open_slot
  open_with env [] [] = throw no_matching_slot
  open_with env [] (e ∷ errors) = throw (every_candidate_failed (e ∷ errors))
  open_with env (candidate ∷ candidates) errors =
      elim (lookup candidate.key_id env.brief_recipients) [
        | none ↦ open_with env candidates errors
        | some wrapped ↦ elim (open_slot env candidate wrapped) [
          | ok brief ↦ ok brief
          | throw e ↦ open_with env candidates (errors ++ (candidate.key_id, e) ∷ [])
        ]
      ]

  unfoldable pub open_brief_only :
      Envelope → List RecipientCandidate → Fallible OpenError DecodedBrief
  open_brief_only env [] = throw empty_candidates
  open_brief_only env (candidate ∷ candidates) =
      if str_eq env.algorithm "x25519-chacha20-poly1305"
        || str_eq env.algorithm "pq-kyber768-x25519"
      then open_with env (candidate ∷ candidates) []
      else throw unknown_algorithm

  -- A step that the configuration may skip.
  abbrev pub unless : Bool → Check → Check
  unless true check = ok tt
  unless false check = check

  abbrev pub opened : Fallible OpenError DecodedBrief → Fallible PipelineRejection DecodedBrief
  opened (ok brief) = ok brief
  opened (throw e) = throw (reject "seal_invalid" (unopened e))

  -- Steps 1 to 7 of `process`: the brief, or the rejection of the whole envelope.
  unfoldable pub check_envelope :
      PipelineConfig → Envelope → Fallible PipelineRejection (DecodedBrief × List String)
  check_envelope cfg env = do
    unless cfg.skip_signature_check (verify_signature cfg env)
    unless cfg.skip_expiry_check (check_expiry cfg env)
    unless cfg.skip_session_id_check (check_session_id cfg env)
    unless cfg.skip_session_mac_check (check_session_mac cfg env)
    check_domain_policy cfg env
    brief ← opened (open_brief_only env cfg.brief_recipients)
    elim brief.to [
      | none ↦ throw (reject "brief_invalid" no_recipients)
      | some to ↦ ok (brief, to ++ copies brief.cc)
    ]

  -- The sender that the block list is asked about; the routing server is not given.
  unfoldable pub sender_of : DecodedBrief → Envelope → BlockListSender
  sender_of brief env = elim brief.from [
    | some address ↦ record {
      address = some address;
      domain = some (platform.after_at address);
      server = none;
      is_group = false;
    }
    | none ↦ record {
      address = some "";
      domain = some env.postmark.from_domain;
      server = none;
      is_group = false;
    }
  ]

  -- Steps 8a and 8b: the result of a recipient that the gate or the block list turns away. `clock` is
  -- the wall clock, which the match reads in place of the configuration's.
  unfoldable pub gate : PipelineConfig → String → Option SubmissionResult
  gate cfg recipient = elim cfg.recipient_policy [
    | none ↦ none
    | some policy ↦ elim (policy recipient) [
      | pass ↦ none
      | refuse is_silent code reason ↦ some (record {
        recipient = recipient;
        status = if is_silent then SubmissionStatus.silent else SubmissionStatus.rejected;
        reason_code = some code;
        reason = reason;
      })
    ]
  ]

  unfoldable pub blocked :
      PipelineConfig → ℕ → Envelope → DecodedBrief → String → Option SubmissionResult
  unfolding sender_of
  blocked cfg clock env brief recipient = elim cfg.block_list [
    | none ↦ none
    | some lists ↦
        elim (match_block_list platform.date_parse platform.lower (lists recipient)
          (sender_of brief env) clock) [
            | none ↦ none
            | some entry ↦ some (record {
              recipient = recipient;
              status = status_of entry.acknowledgment;
              reason_code = some "blocked_recipient";
              reason = entry.reason;
            })
          ]
  ]

  abbrev pub delivered_to : String → SubmissionResult
  delivered_to recipient = record {
    recipient = recipient;
    status = SubmissionStatus.delivered;
    reason_code = none;
    reason = none;
  }

  unfoldable pub deliver_one :
      PipelineConfig
      → ℕ
      → Envelope
      → DecodedBrief
      → String
      → Inbox
      → Fallible InboxError (Inbox × SubmissionResult)
  deliver_one cfg clock env brief recipient inbox =
      if not (cfg.is_local recipient)
      then ok (
        inbox,
        record {
          recipient = recipient;
          status = SubmissionStatus.rejected;
          reason_code = some "recipient_not_found";
          reason = some "recipient is not local; caller forwards via federation";
        },
      )
      else elim (gate cfg recipient) [
        | some result ↦ ok (inbox, result)
        | none ↦ elim (blocked cfg clock env brief recipient) [
          | some result ↦ ok (inbox, result)
          | none ↦
              if cfg.has_inbox
              then elim (store recipient (platform.encode_envelope env) inbox) [
                | throw e ↦ throw e
                | ok inbox' ↦ ok (inbox', delivered_to recipient)
              ]
              else ok (inbox, delivered_to recipient)
        ]
      ]

  -- The loop over the recipients: the inbox and the error come together where one throws.
  unfoldable pub deliver_all :
      PipelineConfig
      → ℕ
      → Envelope
      → DecodedBrief
      → List String
      → Inbox
      → Inbox × Fallible InboxError (List SubmissionResult)
  deliver_all cfg clock env brief [] inbox = (inbox, ok [])
  deliver_all cfg clock env brief (recipient ∷ recipients) inbox =
      elim (deliver_one cfg clock env brief recipient inbox) [
        | throw e ↦ (inbox, throw e)
        | ok (inbox', result) ↦
            let (last, rest) = deliver_all cfg clock env brief recipients inbox' in
            (last, rest >>= λ results. ok (result ∷ results))
      ]

  unfoldable pub process :
      PipelineConfig → ℕ → Envelope → Inbox → Inbox × Fallible InboxError PipelineResult
  process cfg clock env inbox = elim (check_envelope cfg env) [
    | throw rejection ↦ (
      inbox,
      ok (record {
        envelope_id = env.postmark.id;
        brief = none;
        results = [];
        rejection = some rejection;
      }),
    )
    | ok (brief, recipients) ↦
        let (last, outcome) = deliver_all cfg clock env brief recipients inbox in
        (
          last,
          outcome >>= λ results. ok (record {
            envelope_id = env.postmark.id;
            brief = some brief;
            results = results;
            rejection = none;
          }),
        )
  ]
