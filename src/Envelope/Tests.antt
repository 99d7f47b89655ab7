-- ===== src/Envelope/Tests.antt =====
-- Buckets at concrete sizes.
use semp_ts.Common.{ℕ, ◌≤◌, ◌<◌, ◌≡◌, refl, false, ◌⊎◌, none, some, [], ◌∷◌, ok, arith, All}
use semp_ts.Envelope.Buckets.{
  min_envelope_size_bucket, select_size_bucket, select_recipient_count_bucket,
  validate_bucket_sequence, pick_bucket, increasing_from,
}
use semp_ts.Envelope.Buckets.Sizes.{
  IsBucket, select_size_bucket-IsBucket, Hidden, select_recipient_count_bucket-hides,
}
use semp_ts.Envelope.Buckets.Sequence.{pick_bucket-IsPick}

select_size_bucket-IsBucket_example :
    (bucket : ℕ) × (select_size_bucket 9000 (some 1000000) ≡ ok bucket)
    × IsBucket min_envelope_size_bucket 1000000 9000 bucket
select_size_bucket-IsBucket_example =
    select_size_bucket-IsBucket 9000 1000000 (omega arith) (omega arith)

select_recipient_count_bucket-hides_example :
    (5 ≤ 1024 → Hidden 5 false) × (1024 < 5 → select_recipient_count_bucket 5 false ≡ none)
select_recipient_count_bucket-hides_example = select_recipient_count_bucket-hides 5 false

sequence-valid : validate_bucket_sequence (5000 ∷ 20000 ∷ []) 30000 ≡ ok tt
unfolding validate_bucket_sequence increasing_from
sequence-valid = refl

pick_bucket-IsPick_example :
    (bucket : ℕ) × (pick_bucket 9000 30000 (5000 ∷ 20000 ∷ []) ≡ ok bucket)
    × (9000 ≤ bucket)
    × (min_envelope_size_bucket ≤ bucket)
    × (bucket ≤ 30000)
    × All (λ c. (bucket ≤ c) ⊎ (c < 9000)) (5000 ∷ 20000 ∷ [])
pick_bucket-IsPick_example =
    pick_bucket-IsPick 9000 30000 5000 (20000 ∷ []) sequence-valid (omega arith)
