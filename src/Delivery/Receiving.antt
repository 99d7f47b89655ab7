-- ===== src/Delivery/Receiving.antt =====
-- Runs of the receiving side at concrete inputs: the block list, the inbox and the pipeline;
-- and of the counter of silent recipients.
use semp_ts.Common.{
  List, ℕ, String, ◌≡◌, refl, ◌⊎◌, true, false, Option, none, some, [], ◌∷◌, arith, ◌≢◌, ok, All,
  map, str_eq,
}
use semp_ts.Delivery.Ack.{Acknowledgment}
use semp_ts.Delivery.Blocklist.{BlockEntry, BlockListSender, Entity, Scope, match_block_list}
use semp_ts.Delivery.Blocklist.Applying.{Applies}
use semp_ts.Delivery.Blocklist.Match.{IsFirstHighest, match_block_list-IsFirstHighest}
use semp_ts.Delivery.Inbox.{Inbox, store_all, drain, pending, queue_of}
use semp_ts.Delivery.Inbox.Fifo.{newest, drain-newest}
use semp_ts.Delivery.Pipeline.{
  Envelope, DecodedBrief, Platform, pass, PipelineConfig, PipelineResult, check_envelope, process,
  verify_signature, check_expiry, check_session_id, check_session_mac, check_domain_policy,
  open_brief_only, open_with, open_slot, demand,
}
use semp_ts.Delivery.Silence.{SilentLimits, new_limits, Noted, note_all, effective, count_of}
use semp_ts.Delivery.Silence.Window.{run_of, tightened, effective-run_of}
use semp_ts.Delivery.Pipeline.Checks.{IsAccepted, check_envelope-IsAccepted}
use semp_ts.Delivery.Pipeline.Deliver.{takes, store_each, process-store_each}

-- A parser of no date, and no change of case.
abbrev no_date : String → Option ℕ
no_date text = none

abbrev same : String → String
same text = text

abbrev of_domain : BlockEntry
of_domain = record {
  entity = Entity.domain (some "b.example");
  acknowledgment = Acknowledgment.rejected;
  reason = none;
  scope = Scope.all;
  expires_at = none;
}

abbrev of_user : BlockEntry
of_user = record {
  entity = Entity.user (some "bob@b.example");
  acknowledgment = Acknowledgment.silent;
  reason = none;
  scope = Scope.direct;
  expires_at = none;
}

abbrev bob : BlockListSender
bob = record {
  address = some "bob@b.example";
  domain = some "b.example";
  server = none;
  is_group = false;
}

match_block_list-IsFirstHighest_example :
    ((match_block_list no_date same (some (of_domain ∷ of_user ∷ [])) bob 5 ≡ none)
      × All (λ p. ¬ Applies no_date same bob 5 p) (of_domain ∷ of_user ∷ []))
    ⊎ ((e : BlockEntry) × (match_block_list no_date same (some (of_domain ∷ of_user ∷ [])) bob 5
          ≡ some e)
        × IsFirstHighest no_date same bob 5 (of_domain ∷ of_user ∷ []) e)
match_block_list-IsFirstHighest_example =
    match_block_list-IsFirstHighest no_date same bob 5 (of_domain ∷ of_user ∷ [])

abbrev small_inbox : Inbox
small_inbox = record { queues = []; max_depth = 2 }

alice-IsNamed : ◌≢◌ {A = String} "alice@a.example" ""
alice-IsNamed e = cc

drain-newest_example :
    (inbox' : Inbox) × (store_all "alice@a.example"
        ((1 ∷ []) ∷ (2 ∷ []) ∷ (3 ∷ []) ∷ [])
        small_inbox
      ≡ ok inbox')
    × ((drain "alice@a.example" inbox').1 ≡ newest 2 ((1 ∷ []) ∷ (2 ∷ []) ∷ (3 ∷ []) ∷ []))
    × (pending "alice@a.example" (drain "alice@a.example" inbox').0 ≡ 0)
    × ((k : String)
        → str_eq "alice@a.example" k ≡ false
        → queue_of k (drain "alice@a.example" inbox').0 ≡ queue_of k small_inbox)
unfolding queue_of
drain-newest_example =
    drain-newest "alice@a.example" ((1 ∷ []) ∷ (2 ∷ []) ∷ (3 ∷ []) ∷ []) small_inbox alice-IsNamed
      (omega arith) tt refl

abbrev decoded : DecodedBrief
decoded = record { to = some ("alice@a.example" ∷ []); cc = none; from = some "bob@b.example" }

-- A platform on which every check passes.
abbrev toy : Platform
toy = record {
  date_parse = no_date;
  lower = same;
  trim = same;
  after_at = λ a. "b.example";
  verify_seal = λ e k. ok true;
  verify_mac = λ e k. ok true;
  encode_envelope = λ e. 7 ∷ [];
  unwrap = λ suite c wrapped. ok (1 ∷ []);
  base64_decode = λ text. 0 ∷ 1 ∷ 2 ∷ 3 ∷ 4 ∷ 5 ∷ 6 ∷ 7 ∷ 8 ∷ 9 ∷ 10 ∷ 11 ∷ 12 ∷ [];
  aead_open = λ key nonce ct aad. ok ct;
  parse_brief = λ plain. ok decoded;
}

abbrev envelope : Envelope
envelope = record {
  postmark = record { id = "env-1"; from_domain = "b.example"; session_id = "s-1"; expires = none };
  algorithm = "x25519-chacha20-poly1305";
  brief_recipients = ("key-1", "wrapped") ∷ [];
  signature = "sig";
  session_mac = "mac";
  brief = "brief";
  enclosure = "enclosure";
}

abbrev config : PipelineConfig
config = record {
  env_mac = some (9 ∷ []);
  domain_keys = some (λ d. some (8 ∷ []));
  session_retired = none;
  skip_signature_check = false;
  skip_session_mac_check = false;
  skip_expiry_check = false;
  skip_session_id_check = false;
  brief_recipients = record { key_id = "key-1"; private_key = []; public_key = [] } ∷ [];
  domain_policy = some (λ d. pass);
  recipient_policy = none;
  block_list = none;
  is_local = λ r. true;
  has_inbox = true;
  now = 1000;
  clock_skew_ms = none;
}

accepted : check_envelope toy config envelope ≡ ok (decoded, "alice@a.example" ∷ [])
unfolding check_envelope verify_signature check_expiry check_session_id check_session_mac
    check_domain_policy open_brief_only open_with open_slot demand
accepted = refl

check_envelope-IsAccepted_example : IsAccepted toy config envelope decoded ("alice@a.example" ∷ [])
check_envelope-IsAccepted_example =
    check_envelope-IsAccepted toy config envelope decoded ("alice@a.example" ∷ []) accepted

process-store_each_example :
    (last : Inbox) × (result : PipelineResult) × (process toy config 1000 envelope small_inbox
      ≡ (last, ok result))
    × (store_each
          (takes toy config 1000 envelope decoded)
          (7 ∷ [])
          ("alice@a.example" ∷ [])
          small_inbox
        ≡ ok last)
    × (map (λ r. r.recipient) result.results ≡ "alice@a.example" ∷ [])
    × (result.rejection ≡ none)
process-store_each_example =
    process-store_each toy config 1000 envelope decoded ("alice@a.example" ∷ []) small_inbox refl
      (alice-IsNamed, tt) accepted

abbrev limits : SilentLimits
limits = new_limits (record {
  threshold = some 2;
  observation_window_ms = some 100;
  short_deadline_ms = none;
  idle_expiry_ms = none;
})

abbrev noted : List Noted
noted =
    record { recipient = "bob@b.example"; is_silent = true; at = 10 }
    ∷ record { recipient = "eve@b.example"; is_silent = false; at = 20 }
    ∷ record { recipient = "bob@b.example"; is_silent = true; at = 90 }
    ∷ []

bob-IsNamed : ◌≢◌ {A = String} "bob@b.example" ""
bob-IsNamed e = cc

effective-run_of_example :
    let run = run_of "bob@b.example" noted none in
    (effective limits "bob@b.example" 200 (note_all noted []) ≡ tightened limits 200 run)
    × (count_of "bob@b.example" (note_all noted []) ≡ elim run [ none ↦ 0 | some e ↦ e.count ])
effective-run_of_example = effective-run_of limits "bob@b.example" noted 200 bob-IsNamed
