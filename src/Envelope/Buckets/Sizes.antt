-- ===== src/Envelope/Buckets/Sizes.antt =====
-- The size bucket holds the envelope, is at most double, and stands on the curve or the ceiling.
use native.Mathlib.Nat.{pow-succ', pow-zero, mul_assoc}
use semp_ts.Common.{
  ℕ, zero, suc, ◌+◌, ◌*◌, ◌^◌, ◌≤◌, ◌<◌, ◌≡◌, refl, sym, ap, ◌∙◌, Bool, true, false, ◌&&◌, ◌⊎◌, inl,
  inr, none, some, ok, ltb, ◌==◌, arith, Bool-cases, ltb→lt, max,
}
use semp_ts.Envelope.Buckets.{
  min_envelope_size_bucket, double_up, select_size_bucket, double_over,
  select_recipient_count_bucket,
}

-- What the doubling from `start` comes to.
pub record IsBucket (start ceiling size bucket : ℕ) : Type 0 where
  pub holds : size ≤ bucket
  pub below : bucket ≤ max start ceiling
  pub tight : (bucket ≡ start) ⊎ (bucket < 2 * size)
  pub on_curve : (bucket ≡ ceiling) ⊎ ((k : ℕ) × (bucket ≡ start * 2 ^ k))

power_step : (b k : ℕ) → b * 2 * 2 ^ k ≡ b * 2 ^ suc k
power_step b k = mul_assoc b 2 (2 ^ k) ∙ ap (λ (t : ℕ). b * t) (sym (pow-succ' 2 k))

start_power : (b : ℕ) → b ≡ b * 2 ^ 0
start_power b = simp pow-zero (omega arith)

next-IsBucket :
    (ceiling size b r : ℕ)
    → b < size
    → b * 2 ≤ ceiling
    → IsBucket (b * 2) ceiling size r
    → IsBucket b ceiling size r
next-IsBucket ceiling size b r small room h = record {
  holds = h.holds;
  below = omega (arith, h.below);
  tight = elim h.tight [ inl e ↦ inr (omega (arith, e)) | inr lt ↦ inr lt ];
  on_curve = elim h.on_curve [ inl e ↦ inl e | inr (k, e) ↦ inr (suc k, e ∙ power_step b k) ];
}

double_up-IsBucket :
    (fuel ceiling size b : ℕ)
    → 0 < b
    → size ≤ b + fuel
    → size ≤ ceiling
    → IsBucket b ceiling size (double_up fuel ceiling size b)
unfolding double_up
double_up-IsBucket zero ceiling size b pos enough fits = record {
  holds = omega arith;
  below = omega arith;
  tight = inl refl;
  on_curve = inr (0, start_power b);
}
double_up-IsBucket (suc fuel) ceiling size b pos enough fits = elim (Bool-cases (ltb b size)) [
  | inr held ↦
      let le : size ≤ b = ground (arith, held) in
      rw held (record {
        holds = le;
        below = omega arith;
        tight = inl refl;
        on_curve = inr (0, start_power b);
      })
  | inl small ↦
      let lt : b < size = ltb→lt b size small in
      elim (Bool-cases (ltb ceiling (b * 2))) [
        | inl over ↦
            let past : ceiling < b * 2 = ltb→lt ceiling (b * 2) over in
            rw (small, over)
              (record {
                holds = fits;
                below = omega arith;
                tight = inr (omega arith);
                on_curve = inl refl;
              })
        | inr room ↦
            let le : b * 2 ≤ ceiling = ground (arith, room) in
            rw (small, room)
              (next-IsBucket ceiling size b (double_up fuel ceiling size (b * 2)) lt le
                (double_up-IsBucket fuel ceiling size (b * 2) (omega arith) (omega arith) fits))
      ]
]

-- A size that fits a positive ceiling has a bucket: the envelope fits it, it is 4096 or less than
-- double the size, it is at most the ceiling or 4096, and it is the ceiling or 4096 * 2^k.
pub select_size_bucket-IsBucket :
    (size ceiling : ℕ)
    → 0 < ceiling
    → size ≤ ceiling
    → (bucket : ℕ) × (select_size_bucket size (some ceiling) ≡ ok bucket)
      × IsBucket min_envelope_size_bucket ceiling size bucket
unfolding select_size_bucket
select_size_bucket-IsBucket size ceiling pos fits = (
  double_up size ceiling size min_envelope_size_bucket,
  ground arith,
  double_up-IsBucket size ceiling size min_envelope_size_bucket (omega arith) (omega arith) fits,
)

-- The count's bucket, where the count is not the single domain's one: the least power of two from 2
-- on that holds it.
double_over-least :
    (fuel count b : ℕ)
    → 0 < b
    → count ≤ b + fuel
    → let r = double_over fuel count b in
      (count ≤ r) × ((r ≡ b) ⊎ (r < 2 * count)) × ((k : ℕ) × (r ≡ b * 2 ^ k))
unfolding double_over
double_over-least zero count b pos enough = (omega arith, inl refl, (0, start_power b))
double_over-least (suc fuel) count b pos enough = elim (Bool-cases (ltb b count)) [
  | inr held ↦ rw held (ground (arith, held), inl refl, (0, start_power b))
  | inl small ↦
      let lt : b < count = ltb→lt b count small in
      let (holds, tight, power) =
        double_over-least fuel count (b * 2) (omega arith) (omega arith) in
      rw small (
        holds,
        elim tight [ inl same ↦ inr (omega (arith, same)) | inr le ↦ inr le ],
        (suc power.0, power.1 ∙ power_step b power.0),
      )
]

-- A power of two stands for the count: at least the count, and 2 or less than double.
abbrev pub Hidden : ℕ → Bool → Type 0
Hidden count single =
    (bucket : ℕ) × (select_recipient_count_bucket count single ≡ some bucket)
    × (count ≤ bucket)
    × ((bucket ≤ 2) ⊎ (bucket < 2 * count))
    × ((k : ℕ) × (bucket ≡ 2 ^ k))

-- The padded number of recipients of at most 1024 real ones is a power of two, at least the real
-- number, and at most 2 or less than double the real number. Above 1024 the envelope is recomposed.
pub select_recipient_count_bucket-hides :
    (count : ℕ) (single : Bool)
    → (count ≤ 1024 → Hidden count single)
      × (1024 < count → select_recipient_count_bucket count single ≡ none)
unfolding select_recipient_count_bucket
select_recipient_count_bucket-hides count single = (few, λ many. ground arith)
  where
    padded : (alone : Bool) → ((count == 1) && single) ≡ alone → count ≤ 1024 → Hidden count single
    padded true e le = (1, rw e, ground (arith, e), inl (omega arith), (0, sym (pow-zero 2)))
    padded false e le =
        let (holds, tight, power) = double_over-least count count 2 (omega arith) (omega arith) in
        (
          double_over count count 2,
          ground (arith, e),
          holds,
          elim tight [ inl two ↦ inl (omega (arith, two)) | inr lt ↦ inr lt ],
          (suc power.0, power.1 ∙ sym (pow-succ' 2 power.0)),
        )

    few : count ≤ 1024 → Hidden count single
    few = padded ((count == 1) && single) refl
