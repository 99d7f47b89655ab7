-- ===== src/Reputation/Bucketize/Bucketed.antt =====
-- What bucketing makes of an observation: its counts, and its categories.
use text.Mathlib.TextEquality.{eq_iff}
use semp_ts.Common.{
  ℕ, ◌*◌, ◌^◌, ◌≤◌, ◌<◌, ◌≡◌, refl, sym, ap, ◌∙◌, ◌⊎◌, inl, inr, String, Bool, true, false, ◌||◌,
  ◌&&◌, not, Option, none, some, List, [], ◌∷◌, str_eq, Bool-cases, min, arith,
}
use semp_ts.Reputation.Bucketize.{
  max_metric_bucket, seen, dedupe_from, or_missing, dedupe_abuse_categories, Metrics, bucketize_set,
  apply_bucketing,
}
use semp_ts.Reputation.Bucketize.Idempotence.{bucketize-rounds, bucketize-bucketize, dedupe-dedupe}

-- `b` is `n` rounded up: at least `n`, or the cap; at most the cap; less than double; 0 or a power of 2.
abbrev pub IsRounded : ℕ → ℕ → Type 0
IsRounded n b =
    (min n max_metric_bucket ≤ b)
    × (b ≤ max_metric_bucket)
    × ((b ≡ 0) ⊎ (b ≡ 1) ⊎ (b < 2 * n))
    × ((b ≡ 0) ⊎ ((k : ℕ) × (b ≡ 2 ^ k)))

-- A count that is set is rounded, and one that is not stays unset.
abbrev pub IsRoundedSet : Option ℕ → Option ℕ → Type 0
IsRoundedSet none none = Unit
IsRoundedSet none (some b) = ⊥
IsRoundedSet (some n) none = ⊥
IsRoundedSet (some n) (some b) = IsRounded n b

abbrev pub has : String → Option (List String) → Bool
has c none = false
has c (some cats) = seen c cats

abbrev pub IsDistinct : List String → Type 0
IsDistinct [] = Unit
IsDistinct (c ∷ cs) = (seen c cs ≡ false) × IsDistinct cs

-- No category stands twice, and there is one at least where there are categories.
abbrev pub IsTidy : Option (List String) → Type 0
IsTidy none = Unit
IsTidy (some []) = ⊥
IsTidy (some (c ∷ cs)) = IsDistinct (c ∷ cs)

pub record IsBucketed (m b : Metrics) : Type 0 where
  pub received : IsRounded m.envelopes_received b.envelopes_received
  pub rejected : IsRounded m.envelopes_rejected b.envelopes_rejected
  pub reports : IsRounded m.abuse_reports b.abuse_reports
  pub senders : IsRoundedSet m.unique_senders_observed b.unique_senders_observed
  pub completed : IsRoundedSet m.handshakes_completed b.handshakes_completed
  pub refused : IsRoundedSet m.handshakes_rejected b.handshakes_rejected
  pub kept :
      (c : String) → has c b.abuse_categories ≡ (not (str_eq c "") && has c m.abuse_categories)
  pub tidy : IsTidy b.abuse_categories

bucketize_set-IsRoundedSet : (o : Option ℕ) → IsRoundedSet o (bucketize_set o)
bucketize_set-IsRoundedSet none = tt
bucketize_set-IsRoundedSet (some n) = bucketize-rounds n

-- The categories taken are those that are not empty and not taken before.
seen-dedupe_from :
    (x : String) (taken cs : List String)
    → seen x (dedupe_from taken cs) ≡ (not (str_eq x "") && (not (seen x taken) && seen x cs))
unfolding seen dedupe_from
seen-dedupe_from x taken [] = ground arith
seen-dedupe_from x taken (c ∷ cs) = elim (Bool-cases (str_eq c x)) [
  | inr other ↦ elim (Bool-cases (str_eq c "" || seen c taken)) [
    | inl skipped ↦ let ih = seen-dedupe_from x taken cs in rw skipped (rw ih (rw other refl))
    | inr fresh ↦ let ih = seen-dedupe_from x (c ∷ taken) cs in rw fresh (rw ih (rw other refl))
  ]
  | inl own ↦
      let same : c ≡ x = (eq_iff c x).0 own in
      elim (Bool-cases (str_eq c "" || seen c taken)) [
        | inl skipped ↦
            let ih = seen-dedupe_from x taken cs in
            let skipped' : (str_eq x "" || seen x taken) ≡ true =
              sym (ap (λ t. str_eq t "" || seen t taken) same) ∙ skipped in
            rw skipped (rw ih (ground (arith, skipped')))
        | inr fresh ↦
            let fresh' : (str_eq x "" || seen x taken) ≡ false =
              sym (ap (λ t. str_eq t "" || seen t taken) same) ∙ fresh in
            rw fresh (rw own (ground (arith, fresh')))
      ]
]

dedupe_from-IsDistinct : (taken cs : List String) → IsDistinct (dedupe_from taken cs)
unfolding dedupe_from
dedupe_from-IsDistinct taken [] = tt
dedupe_from-IsDistinct taken (c ∷ cs) = elim (Bool-cases (str_eq c "" || seen c taken)) [
  | inl skipped ↦ rw skipped (dedupe_from-IsDistinct taken cs)
  | inr fresh ↦
      let own : str_eq c c ≡ true = (eq_iff c c).1 refl in
      let found : seen c (c ∷ taken) ≡ true = unfold seen in rw own refl in
      let gone : seen c (dedupe_from (c ∷ taken) cs) ≡ false =
        seen-dedupe_from c (c ∷ taken) cs ∙ ground (arith, found) in
      rw fresh (gone, dedupe_from-IsDistinct (c ∷ taken) cs)
]

has-or_missing : (x : String) (cs : List String) → has x (or_missing cs) ≡ seen x cs
unfolding seen
has-or_missing x [] = refl
has-or_missing x (c ∷ cs) = refl

or_missing-IsTidy : (cs : List String) → IsDistinct cs → IsTidy (or_missing cs)
or_missing-IsTidy [] h = tt
or_missing-IsTidy (c ∷ cs) h = h

dedupe_kept :
    (x : String) (cats : Option (List String))
    → has x (dedupe_abuse_categories cats) ≡ (not (str_eq x "") && has x cats)
unfolding dedupe_abuse_categories seen
dedupe_kept x none = ground arith
dedupe_kept x (some cs) = has-or_missing x (dedupe_from [] cs) ∙ seen-dedupe_from x [] cs

dedupe-IsTidy : (cats : Option (List String)) → IsTidy (dedupe_abuse_categories cats)
unfolding dedupe_abuse_categories
dedupe-IsTidy none = tt
dedupe-IsTidy (some cs) = or_missing-IsTidy (dedupe_from [] cs) (dedupe_from-IsDistinct [] cs)

set-set : (o : Option ℕ) → bucketize_set (bucketize_set o) ≡ bucketize_set o
set-set none = refl
set-set (some n) = ap some (bucketize-bucketize n)

-- In bucketed metrics every count that is set is rounded up to a power of two within the cap, the
-- categories are those that are not empty, each once, and absent where there are none, and another
-- bucketing changes nothing.
pub apply_bucketing-IsBucketed :
    (m : Metrics)
    → IsBucketed m (apply_bucketing m) × (apply_bucketing (apply_bucketing m) ≡ apply_bucketing m)
unfolding apply_bucketing
apply_bucketing-IsBucketed m = (
  record {
    received = bucketize-rounds m.envelopes_received;
    rejected = bucketize-rounds m.envelopes_rejected;
    reports = bucketize-rounds m.abuse_reports;
    senders = bucketize_set-IsRoundedSet m.unique_senders_observed;
    completed = bucketize_set-IsRoundedSet m.handshakes_completed;
    refused = bucketize_set-IsRoundedSet m.handshakes_rejected;
    kept = λ c. dedupe_kept c m.abuse_categories;
    tidy = dedupe-IsTidy m.abuse_categories;
  },
  cc (
    bucketize-bucketize m.envelopes_received,
    bucketize-bucketize m.envelopes_rejected,
    bucketize-bucketize m.abuse_reports,
    set-set m.unique_senders_observed,
    set-set m.handshakes_completed,
    set-set m.handshakes_rejected,
    dedupe-dedupe m.abuse_categories,
  ),
)
