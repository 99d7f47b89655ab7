-- ===== src/Envelope/Buckets.antt =====
-- src/envelope/buckets.ts and src/envelope/padding.ts: the buckets that hide the size and the number
-- of recipients of an envelope, and the padding that brings it onto its bucket. Sizes are whole
-- numbers from 0 on, so the tests for fractions and negative numbers are left out. The doubling
-- loops run on fuel, as many rounds as the size: each round at least adds one to the bucket.
pub mod Sizes
pub mod Sequence
use semp_ts.Common.{
  ℕ, zero, suc, ◌+◌, ◌-◌, ◌*◌, ◌/◌, ◌%◌, ◌≡◌, Bool, true, false, ◌&&◌, Option, none, some, List, [],
  ◌∷◌, ◌++◌, Fallible, ok, throw, throw_if, ◌>>=◌, ◌>>◌, leb, ltb, ◌==◌, if◌then◌else◌, length,
  get_elem?, String, str_eq,
}

pub data BucketError : Type 0 where
  non_positive_ceiling too_large : BucketError
  first_below_floor not_increasing last_above_ceiling : BucketError

abbrev pub min_envelope_size_bucket : ℕ
min_envelope_size_bucket = 4096

abbrev pub default_max_envelope_size : ℕ
default_max_envelope_size = 25 * 1024 * 1024

-- The loop of `selectSizeBucket`.
unfoldable pub double_up : ℕ → ℕ → ℕ → ℕ → ℕ
double_up zero ceiling size bucket = bucket
double_up (suc fuel) ceiling size bucket =
    let rest = double_up fuel ceiling size (bucket * 2) in
    if ltb bucket size then if ltb ceiling (bucket * 2) then ceiling else rest else bucket

-- maxEnvelopeSize ?? DefaultMaxEnvelopeSize
abbrev pub or_default : Option ℕ → ℕ
or_default none = default_max_envelope_size
or_default (some ceiling) = ceiling

unfoldable pub select_size_bucket : ℕ → Option ℕ → Fallible BucketError ℕ
select_size_bucket unpadded_size max_envelope_size = do
  throw_if (or_default max_envelope_size == 0) non_positive_ceiling
  throw_if (ltb (or_default max_envelope_size) unpadded_size) too_large
  ok (double_up unpadded_size (or_default max_envelope_size) unpadded_size min_envelope_size_bucket)

-- The loop of `selectRecipientCountBucket`.
unfoldable pub double_over : ℕ → ℕ → ℕ → ℕ
double_over zero count bucket = bucket
double_over (suc fuel) count bucket =
    let rest = double_over fuel count (bucket * 2) in if ltb bucket count then rest else bucket

-- none stands for the -1 that asks for a recomposition.
unfoldable pub select_recipient_count_bucket : ℕ → Bool → Option ℕ
unfolding double_over
select_recipient_count_bucket real_recipients single_domain_not_group =
    if (real_recipients == 1) && single_domain_not_group
    then some 1
    else if ltb 1024 real_recipients
    then none
    else some (double_over real_recipients real_recipients 2)

-- The loop of `validateBucketSequence`, from the element after `previous`.
unfoldable pub increasing_from : ℕ → List ℕ → Fallible BucketError ℕ
increasing_from previous [] = ok previous
increasing_from previous (b ∷ bs) = do
  throw_if (leb b previous) not_increasing
  increasing_from b bs

-- An empty sequence is never validated.
unfoldable pub validate_bucket_sequence : List ℕ → ℕ → Fallible BucketError (Unit {0})
unfolding increasing_from
validate_bucket_sequence [] ceiling = throw first_below_floor
validate_bucket_sequence (b ∷ bs) ceiling = do
  throw_if (ltb b min_envelope_size_bucket) first_below_floor
  last ← increasing_from b bs
  throw_if (ltb ceiling last) last_above_ceiling

-- The loop of `pickBucket` over an operator's sequence.
unfoldable pub pick_in : List ℕ → ℕ → ℕ → ℕ
pick_in [] unpadded_size ceiling = ceiling
pick_in (b ∷ bs) unpadded_size ceiling =
    if leb unpadded_size b then b else pick_in bs unpadded_size ceiling

unfoldable pub pick_bucket : ℕ → ℕ → List ℕ → Fallible BucketError ℕ
unfolding pick_in
pick_bucket unpadded_size ceiling [] = select_size_bucket unpadded_size (some ceiling)
pick_bucket unpadded_size ceiling (b ∷ bs) = ok (pick_in (b ∷ bs) unpadded_size ceiling)
