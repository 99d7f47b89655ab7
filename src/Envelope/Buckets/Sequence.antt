-- ===== src/Envelope/Buckets/Sequence.antt =====
-- An operator's own sequence of buckets.
use semp_ts.Common.{
  ℕ, ◌≤◌, ◌<◌, ◌≡◌, refl, false, ◌⊎◌, inl, inr, List, [], ◌∷◌, ok, leb, ltb, arith, Bool-cases,
  bind_parts, then_parts, throw_if-ok, leb→le, All, ok-injective, throw_if, ◌>>=◌,
}
use semp_ts.Envelope.Buckets.{
  min_envelope_size_bucket, increasing_from, validate_bucket_sequence, pick_in, pick_bucket,
  first_below_floor, not_increasing, last_above_ceiling,
}

-- Each element above the one before it, the last at most `ceiling`.
abbrev Ascends : ℕ → ℕ → List ℕ → Type 0
Ascends previous ceiling [] = previous ≤ ceiling
Ascends previous ceiling (b ∷ bs) = (previous < b) × Ascends b ceiling bs

increasing_from-Ascends :
    (previous ceiling : ℕ) (bs : List ℕ) {last : ℕ}
    → increasing_from previous bs ≡ ok last
    → last ≤ ceiling
    → Ascends previous ceiling bs
unfolding increasing_from
increasing_from-Ascends previous ceiling [] {last} e le =
    let same : previous ≡ last = ok-injective e in omega (arith, same)
increasing_from-Ascends previous ceiling (b ∷ bs) e le =
    let (passed, rest) =
      then_parts (throw_if (leb b previous) not_increasing) (increasing_from b bs) e in
    let above : leb b previous ≡ false = throw_if-ok (leb b previous) not_increasing passed in
    (ground (arith, above), increasing_from-Ascends b ceiling bs rest le)

-- The first element that holds the size, or the ceiling.
record IsPick (start ceiling size bucket : ℕ) (seq : List ℕ) : Type 0 where
  pub holds : size ≤ bucket
  pub above : start ≤ bucket
  pub below : bucket ≤ ceiling
  pub least : All (λ b. (bucket ≤ b) ⊎ (b < size)) seq

ascending-above :
    (previous ceiling size : ℕ) (bs : List ℕ)
    → Ascends previous ceiling bs
    → (previous ≤ ceiling) × All (λ b. (previous ≤ b) ⊎ (b < size)) bs
ascending-above previous ceiling size [] up = (up, tt)
ascending-above previous ceiling size (b ∷ bs) up =
    let (le, rest) = ascending-above b ceiling size bs up.1 in
    (omega (arith, up.0, le), (inl (omega (arith, up.0)), weaken bs rest))
  where
    weaken :
        (cs : List ℕ)
        → All (λ c. (b ≤ c) ⊎ (c < size)) cs
        → All (λ c. (previous ≤ c) ⊎ (c < size)) cs
    weaken [] h = tt
    weaken (c ∷ cs) h =
        (elim h.0 [ inl le ↦ inl (omega (arith, le, up.0)) | inr lt ↦ inr lt ], weaken cs h.1)

pick_in-IsPick :
    (previous ceiling size : ℕ) (bs : List ℕ)
    → Ascends previous ceiling bs
    → size ≤ ceiling
    → IsPick previous ceiling size (pick_in bs size ceiling) bs
unfolding pick_in
pick_in-IsPick previous ceiling size [] up fits = record {
  holds = fits;
  above = up;
  below = omega arith;
  least = tt;
}
pick_in-IsPick previous ceiling size (b ∷ bs) up fits = elim (Bool-cases (leb size b)) [
  | inl held ↦
      let (le, rest) = ascending-above b ceiling size bs up.1 in
      rw held (record {
        holds = leb→le size b held;
        above = omega (arith, up.0);
        below = le;
        least = (inl (omega arith), rest);
      })
  | inr small ↦
      let lt : b < size = ground (arith, small) in
      let rest = pick_in-IsPick b ceiling size bs up.1 fits in
      rw small (record {
        holds = rest.holds;
        above = omega (arith, rest.above, up.0);
        below = rest.below;
        least = (inr lt, rest.least);
      })
]

-- With a sequence that passes its validation, a size that fits the ceiling has a bucket that holds it,
-- from 4096 up to the ceiling, and every smaller bucket of the sequence is too small for it.
pub pick_bucket-IsPick :
    (size ceiling b : ℕ) (bs : List ℕ)
    → validate_bucket_sequence (b ∷ bs) ceiling ≡ ok tt
    → size ≤ ceiling
    → (bucket : ℕ) × (pick_bucket size ceiling (b ∷ bs) ≡ ok bucket)
      × (size ≤ bucket)
      × (min_envelope_size_bucket ≤ bucket)
      × (bucket ≤ ceiling)
      × All (λ c. (bucket ≤ c) ⊎ (c < size)) (b ∷ bs)
unfolding pick_bucket validate_bucket_sequence
pick_bucket-IsPick size ceiling b bs valid fits =
    let (floor, rest) =
      then_parts (throw_if (ltb b min_envelope_size_bucket) first_below_floor)
        (increasing_from b bs >>= λ last. throw_if (ltb ceiling last) last_above_ceiling) valid in
    let (last, climbed, capped) =
      bind_parts (increasing_from b bs) (λ last. throw_if (ltb ceiling last) last_above_ceiling)
        rest in
    let low : ltb b min_envelope_size_bucket ≡ false = throw_if-ok _ first_below_floor floor in
    let top : ltb ceiling last ≡ false = throw_if-ok _ last_above_ceiling capped in
    let up = increasing_from-Ascends b ceiling bs climbed (ground (arith, top)) in
    let pick = pick_in-IsPick 4095 ceiling size (b ∷ bs) (ground (arith, low), up) fits in
    let later = pick_in-IsPick b ceiling size bs up fits in
    let high : min_envelope_size_bucket ≤ pick_in (b ∷ bs) size ceiling =
      unfold pick_in in ground (arith, low, later.above) in
    (pick_in (b ∷ bs) size ceiling, refl, pick.holds, high, pick.below, pick.least)
