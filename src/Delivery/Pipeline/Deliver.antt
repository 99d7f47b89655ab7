-- ===== src/Delivery/Pipeline/Deliver.antt =====
-- What the pipeline does with the recipients of an envelope that it accepts.
use semp_ts.Common.{
  ℕ, String, ◌≡◌, refl, ap, ap₂, ◌∙◌, ◌⊎◌, inl, inr, Bool, true, false, ◌&&◌, none, some, List, [],
  ◌∷◌, if◌then◌else◌, arith, Bool-cases, Option-cases, Fallible, ok, map, ◌>>=◌, ◌≢◌, All,
}
use semp_ts.Delivery.Submission.{SubmissionResult, SubmissionStatus}
use semp_ts.Delivery.Inbox.{Inbox, InboxError, Payload, store}
use semp_ts.Delivery.Inbox.Fifo.{store-Stored}
use semp_ts.Delivery.Pipeline.{
  Envelope, DecodedBrief, Platform, PipelineConfig, PipelineResult, check_envelope, gate, blocked,
  delivered_to, deliver_one, deliver_all, process,
}

-- A recipient of this server that neither the gate nor its block list turns away.
unfoldable pub takes : Platform → PipelineConfig → ℕ → Envelope → DecodedBrief → String → Bool
takes platform cfg clock env brief recipient =
    cfg.is_local recipient
    && elim (gate platform cfg recipient) [ some result ↦ false | none ↦ true ]
    && elim (blocked platform cfg clock env brief recipient) [ some result ↦ false | none ↦ true ]

-- One payload for each recipient that passes the test, in order.
unfoldable pub store_each :
    (String → Bool) → Payload → List String → Inbox → Fallible InboxError Inbox
store_each test wire [] inbox = ok inbox
store_each test wire (recipient ∷ recipients) inbox =
    (if test recipient then store recipient wire inbox else ok inbox)
    >>= store_each test wire recipients

module _ (platform : Platform) (cfg : PipelineConfig) (clock : ℕ) (env : Envelope)
    (brief : DecodedBrief) where
  named_result :
      (recipient : String) {result : SubmissionResult}
      → (gate platform cfg recipient ≡ some result)
        ⊎ (blocked platform cfg clock env brief recipient ≡ some result)
      → result.recipient ≡ recipient
  unfolding gate blocked
  named_result recipient (inl e) = ground (arith, e)
  named_result recipient (inr e) = ground (arith, e)

  wire : Payload
  wire = platform.encode_envelope env

  -- One recipient: the inbox that it leaves, and a result that names it.
  record Delivers (recipient : String) (inbox : Inbox) : Type 0 where
    next : Inbox
    result : SubmissionResult
    done : deliver_one platform cfg clock env brief recipient inbox ≡ ok (next, result)
    stored :
        (if takes platform cfg clock env brief recipient
          then store recipient wire inbox
          else ok inbox)
        ≡ ok next
    names : result.recipient ≡ recipient

  deliver_one-Delivers :
      (recipient : String) (inbox : Inbox)
      → cfg.has_inbox ≡ true
      → recipient ≢ ""
      → Delivers recipient inbox
  unfolding deliver_one takes wire
  deliver_one-Delivers recipient inbox has h = elim (Bool-cases (cfg.is_local recipient)) [
    | inr remote ↦ record {
      next = inbox;
      result = record {
        recipient = recipient;
        status = SubmissionStatus.rejected;
        reason_code = some "recipient_not_found";
        reason = some "recipient is not local; caller forwards via federation";
      };
      done = ground (arith, remote);
      stored = ground (arith, remote);
      names = refl;
    }
    | inl here ↦ elim (Option-cases (gate platform cfg recipient)) [
      | inr (result, gated) ↦ record {
        next = inbox;
        result = result;
        done = ground (arith, here, gated);
        stored = ground (arith, here, gated);
        names = named_result recipient {result = result} (inl gated);
      }
      | inl free ↦ elim (Option-cases (blocked platform cfg clock env brief recipient)) [
        | inr (result, listed) ↦ record {
          next = inbox;
          result = result;
          done = ground (arith, here, free, listed);
          stored = ground (arith, here, free, listed);
          names = named_result recipient {result = result} (inr listed);
        }
        | inl unlisted ↦
            let (inbox', put_in, _) =
              store-Stored recipient (platform.encode_envelope env) inbox h in
            record {
              next = inbox';
              result = delivered_to platform recipient;
              done = ground (arith, here, free, unlisted, has, put_in);
              stored = ground (arith, here, free, unlisted, put_in);
              names = refl;
            }
      ]
    ]
  ]

  deliver_all-store_each :
      (recipients : List String) (inbox : Inbox)
      → cfg.has_inbox ≡ true
      → All (λ r. r ≢ "") recipients
      → (last : Inbox) × (results : List SubmissionResult) × (deliver_all platform cfg clock env
            brief recipients inbox
          ≡ (last, ok results))
        × (store_each (takes platform cfg clock env brief) wire recipients inbox ≡ ok last)
        × (map (λ r. r.recipient) results ≡ recipients)
  unfolding deliver_all store_each
  deliver_all-store_each [] inbox has named = (inbox, [], refl, refl, refl)
  deliver_all-store_each (r ∷ rs) inbox has named =
      let one = deliver_one-Delivers r inbox has named.0 in
      let (last, results, all, stores, names) = deliver_all-store_each rs one.next has named.1 in
      (
        last,
        one.result ∷ results,
        ground (arith, one.done, all),
        ap (λ t. t >>= store_each (takes platform cfg clock env brief) wire rs) one.stored ∙ stores,
        ap₂ (λ x xs. x ∷ xs) one.names names,
      )

  -- An accepted envelope whose recipients have names: the run ends with one result for each of them,
  -- in their order and under their name, and the inbox is the one that holds a copy of the envelope
  -- for each recipient of this server that neither the gate nor its block list turns away.
  pub process-store_each :
      (recipients : List String) (inbox : Inbox)
      → cfg.has_inbox ≡ true
      → All (λ r. r ≢ "") recipients
      → check_envelope platform cfg env ≡ ok (brief, recipients)
      → (last : Inbox) × (result : PipelineResult) × (process platform cfg clock env inbox
          ≡ (last, ok result))
        × (store_each
              (takes platform cfg clock env brief)
              (platform.encode_envelope env)
              recipients
              inbox
            ≡ ok last)
        × (map (λ r. r.recipient) result.results ≡ recipients)
        × (result.rejection ≡ none)
  unfolding process wire
  process-store_each recipients inbox has named accepted =
      let (last, results, all, stores, names) = deliver_all-store_each recipients inbox has named in
      (
        last,
        record {
          envelope_id = env.postmark.id;
          brief = some brief;
          results = results;
          rejection = none;
        },
        ground (arith, accepted, all),
        stores,
        names,
        refl,
      )
