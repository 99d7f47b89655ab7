-- ===== src/Reputation/Bucketize.antt =====
-- src/reputation/bucketize.ts and src/reputation/eligibility.ts: the counts of an observation are
-- rounded up to powers of two, and its categories are made distinct. Counts are whole numbers from 0
-- on. Below the cap of 2^20 the shift of 32 bits doubles; its loop has the count as fuel.
pub mod Idempotence
pub mod Bucketed
use semp_ts.Common.{
  ℕ, zero, suc, ◌+◌, ◌*◌, String, Bool, true, false, ◌&&◌, ◌||◌, not, Option, none, some, List, [],
  ◌∷◌, ◌++◌, leb, ltb, str_eq, ◌==◌, if◌then◌else◌,
}

abbrev pub max_metric_bucket : ℕ
max_metric_bucket = 1048576

-- The loop of `bucketize`.
unfoldable pub shift_up : ℕ → ℕ → ℕ → ℕ
shift_up zero n b = b
shift_up (suc fuel) n b = let rest = shift_up fuel n (b * 2) in if ltb b n then rest else b

unfoldable pub bucketize : ℕ → ℕ
bucketize n =
    if n == 0 then 0 else if leb max_metric_bucket n then max_metric_bucket else shift_up n n 1

-- A category is its text; one that is empty is passed over.
unfoldable pub seen : String → List String → Bool
seen c [] = false
seen c (d ∷ ds) = str_eq d c || seen c ds

-- The loop of `dedupeAbuseCategories`, with the categories that it has taken.
unfoldable pub dedupe_from : List String → List String → List String
unfolding seen
dedupe_from taken [] = []
dedupe_from taken (c ∷ cs) =
    let rest = dedupe_from taken cs in
    let more = dedupe_from (c ∷ taken) cs in if str_eq c "" || seen c taken then rest else c ∷ more

abbrev pub or_missing : List String → Option (List String)
or_missing [] = none
or_missing (c ∷ cs) = some (c ∷ cs)

unfoldable pub dedupe_abuse_categories : Option (List String) → Option (List String)
dedupe_abuse_categories none = none
dedupe_abuse_categories (some cats) = or_missing (dedupe_from [] cats)

pub record Metrics : Type 0 where
  pub envelopes_received : ℕ
  pub envelopes_rejected : ℕ
  pub abuse_reports : ℕ
  pub unique_senders_observed : Option ℕ
  pub handshakes_completed : Option ℕ
  pub handshakes_rejected : Option ℕ
  pub abuse_categories : Option (List String)

abbrev pub bucketize_set : Option ℕ → Option ℕ
bucketize_set none = none
bucketize_set (some n) = some (bucketize n)

unfoldable pub apply_bucketing : Metrics → Metrics
apply_bucketing m = record {
  envelopes_received = bucketize m.envelopes_received;
  envelopes_rejected = bucketize m.envelopes_rejected;
  abuse_reports = bucketize m.abuse_reports;
  unique_senders_observed = bucketize_set m.unique_senders_observed;
  handshakes_completed = bucketize_set m.handshakes_completed;
  handshakes_rejected = bucketize_set m.handshakes_rejected;
  abuse_categories = dedupe_abuse_categories m.abuse_categories;
}

abbrev pub min_publish_volume_envelopes : ℕ
min_publish_volume_envelopes = 16

-- x ?? 0
abbrev pub set_or_zero : Option ℕ → ℕ
set_or_zero none = 0
set_or_zero (some n) = n

unfoldable pub meets_publish_volume : Metrics → Bool
meets_publish_volume m =
    leb min_publish_volume_envelopes (
      m.envelopes_received + set_or_zero m.handshakes_completed + set_or_zero m.handshakes_rejected)

abbrev pub is_empty_set : Option (List String) → Bool
is_empty_set none = true
is_empty_set (some []) = true
is_empty_set (some (c ∷ cs)) = false

unfoldable pub all_metrics_zero : Metrics → Bool
all_metrics_zero m =
    (m.envelopes_received == 0)
    && (m.envelopes_rejected == 0)
    && (m.abuse_reports == 0)
    && (set_or_zero m.unique_senders_observed == 0)
    && (set_or_zero m.handshakes_completed == 0)
    && (set_or_zero m.handshakes_rejected == 0)
    && is_empty_set m.abuse_categories

unfoldable pub eligible_for_publication : Metrics → Bool
eligible_for_publication m = meets_publish_volume m && not (all_metrics_zero m)
