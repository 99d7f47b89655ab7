-- ===== src/Reputation/Tests.antt =====
-- An observation's metrics at concrete counts.
use semp_ts.Common.{ℕ, ◌*◌, ◌^◌, ◌≤◌, ◌<◌, ◌≡◌, ◌⊎◌, none, some, [], ◌∷◌, min}
use semp_ts.Reputation.Bucketize.{max_metric_bucket, bucketize, Metrics, apply_bucketing}
use semp_ts.Reputation.Bucketize.Bucketed.{IsBucketed, apply_bucketing-IsBucketed}
use semp_ts.Reputation.Bucketize.Idempotence.{bucketize-rounds}

abbrev metrics : Metrics
metrics = record {
  envelopes_received = 37;
  envelopes_rejected = 0;
  abuse_reports = 5;
  unique_senders_observed = none;
  handshakes_completed = some 2000000;
  handshakes_rejected = none;
  abuse_categories = some ("spam" ∷ "spam" ∷ "" ∷ "phishing" ∷ []);
}

bucketize-rounds_example :
    let b = bucketize 37 in
    (min 37 max_metric_bucket ≤ b)
    × (b ≤ max_metric_bucket)
    × ((b ≡ 0) ⊎ (b ≡ 1) ⊎ (b < 2 * 37))
    × ((b ≡ 0) ⊎ ((k : ℕ) × (b ≡ 2 ^ k)))
bucketize-rounds_example = bucketize-rounds 37

apply_bucketing-IsBucketed_example :
    IsBucketed metrics (apply_bucketing metrics)
    × (apply_bucketing (apply_bucketing metrics) ≡ apply_bucketing metrics)
apply_bucketing-IsBucketed_example = apply_bucketing-IsBucketed metrics
