-- ===== src/Reputation/Bucketize/Idempotence.antt =====
-- A count is rounded up to a power of two, and rounding what is rounded changes nothing.
use native.Mathlib.Nat.{pow-succ', pow-zero, mul_assoc, one-le-pow}
use semp_ts.Common.{
  ℕ, zero, suc, ◌+◌, ◌*◌, ◌^◌, ◌≤◌, ◌<◌, ◌≡◌, refl, sym, ap, ◌∙◌, ◌⊎◌, inl, inr, String, ◌||◌,
  Option, none, some, List, [], ◌∷◌, leb, ltb, str_eq, ◌==◌, arith, Bool-cases, ltb→lt, le→ltb, min,
  subst,
}
use semp_ts.Reputation.Bucketize.{
  max_metric_bucket, shift_up, bucketize, seen, dedupe_from, or_missing, dedupe_abuse_categories,
}

power_step : (b k : ℕ) → b * 2 * 2 ^ k ≡ b * 2 ^ suc k
power_step b k = mul_assoc b 2 (2 ^ k) ∙ ap (λ (t : ℕ). b * t) (sym (pow-succ' 2 k))

-- From a power of two below, the loop ends at the least one that holds the count.
shift_up-least :
    (fuel n b : ℕ)
    → 0 < b
    → n ≤ b + fuel
    → let r = shift_up fuel n b in (n ≤ r) × ((r ≡ b) ⊎ (r < 2 * n)) × ((k : ℕ) × (r ≡ b * 2 ^ k))
unfolding shift_up
shift_up-least zero n b pos enough = (omega arith, inl refl, (0, simp pow-zero (omega arith)))
shift_up-least (suc fuel) n b pos enough = elim (Bool-cases (ltb b n)) [
  | inr held ↦ rw held (ground (arith, held), inl refl, (0, simp pow-zero (omega arith)))
  | inl small ↦
      let lt : b < n = ltb→lt b n small in
      let (holds, tight, power) = shift_up-least fuel n (b * 2) (omega arith) (omega arith) in
      rw small (
        holds,
        elim tight [ inl same ↦ inr (omega (arith, same)) | inr le ↦ inr le ],
        (suc power.0, power.1 ∙ power_step b power.0),
      )
]

at_least : (b i : ℕ) → b ≤ b * 2 ^ i
at_least b i = let pos : 0 < 2 ^ i = one-le-pow i 2 (omega arith) in scale b (2 ^ i) pos
  where
    scale : (b p : ℕ) → 0 < p → b ≤ b * p
    scale b p h = grind arith

one_more : (b : ℕ) → b ≡ b * 2 ^ 0
one_more b = simp pow-zero (omega arith)

-- A power of two is its own bucket.
shift_up-power : (fuel n b i : ℕ) → 0 < b → n ≤ b + fuel → b * 2 ^ i ≡ n → shift_up fuel n b ≡ n
unfolding shift_up
shift_up-power zero n b i pos enough at = omega (arith, at_least b i)
shift_up-power (suc fuel) n b zero pos enough at =
    let same : b ≡ n = one_more b ∙ at in ground (arith, same)
shift_up-power (suc fuel) n b (suc i) pos enough at = elim (Bool-cases (ltb b n)) [
  | inr held ↦ rw held (ground (arith, held, at, at_least b (suc i)))
  | inl small ↦
      let lt : b < n = ltb→lt b n small in
      rw small (shift_up-power fuel n (b * 2) i (omega arith) (omega arith) (power_step b i ∙ at))
]

-- The loop stays below a power of two that holds the count.
shift_up-below : (fuel n b i : ℕ) → n ≤ b * 2 ^ i → shift_up fuel n b ≤ b * 2 ^ i
unfolding shift_up
shift_up-below zero n b i fits = at_least b i
shift_up-below (suc fuel) n b zero fits =
    let le : n ≤ b = omega (arith, fits, one_more b) in rw (le→ltb b n le) (at_least b zero)
shift_up-below (suc fuel) n b (suc i) fits = elim (Bool-cases (ltb b n)) [
  | inr held ↦ rw held (at_least b (suc i))
  | inl small ↦
      let rest = shift_up-below fuel n (b * 2) i (rw (power_step b i) fits) in
      rw small (subst (λ t. shift_up fuel n (b * 2) ≤ t) (power_step b i) rest)
]

-- What a count comes to: 0 for 0, else a power of two that holds it or is the cap, less than double.
pub bucketize-rounds :
    (n : ℕ)
    → let b = bucketize n in
      (min n max_metric_bucket ≤ b)
      × (b ≤ max_metric_bucket)
      × ((b ≡ 0) ⊎ (b ≡ 1) ⊎ (b < 2 * n))
      × ((b ≡ 0) ⊎ ((k : ℕ) × (b ≡ 2 ^ k)))
unfolding bucketize
bucketize-rounds n = elim (Bool-cases (n == 0)) [
  | inl none_there ↦
      let zero_count : n ≡ 0 = ground (arith, none_there) in
      rw none_there (omega (arith, zero_count), omega arith, inl refl, inl refl)
  | inr there ↦ elim (Bool-cases (leb max_metric_bucket n)) [
    | inl capped ↦
        let le : max_metric_bucket ≤ n = ground (arith, capped) in
        rw (there, capped) (omega arith, omega arith, inr (inr (omega arith)), inr (20, refl))
    | inr small ↦
        let lt : n < max_metric_bucket = ground (arith, small) in
        let pos : 0 < n = ground (arith, there) in
        let (holds, tight, power) = shift_up-least n n 1 (omega arith) (omega arith) in
        let below = shift_up-below n n 1 20 (omega arith) in
        rw (there, small)
          (
            omega (arith, holds),
            omega (arith, below),
            elim tight [ inl one ↦ inr (inl one) | inr le ↦ inr (inr le) ],
            inr (power.0, omega (arith, power.1)),
          )
  ]
]

power_fixed : (b k : ℕ) → b ≡ 2 ^ k → b ≤ max_metric_bucket → bucketize b ≡ b
unfolding bucketize
power_fixed b k e le =
    let pos : 0 < b = omega (arith, e, one-le-pow k 2 (omega arith)) in
    elim (Bool-cases (leb max_metric_bucket b)) [
      | inl top ↦ ground (arith, top, pos)
      | inr small ↦
          let fixed = shift_up-power b b 1 k (omega arith) (omega arith) (omega (arith, e)) in
          ground (arith, small, pos, fixed)
    ]

bucketize_zero : bucketize 0 ≡ 0
unfolding bucketize
bucketize_zero = refl

pub bucketize-bucketize : (n : ℕ) → bucketize (bucketize n) ≡ bucketize n
bucketize-bucketize n =
    let (_, below, _, shape) = bucketize-rounds n in
    elim shape [
      | inl gone ↦ ap bucketize gone ∙ bucketize_zero ∙ sym gone
      | inr (k, e) ↦ power_fixed (bucketize n) k e below
    ]

dedupe_from-dedupe_from :
    (taken cs : List String) → dedupe_from taken (dedupe_from taken cs) ≡ dedupe_from taken cs
unfolding dedupe_from
dedupe_from-dedupe_from taken [] = refl
dedupe_from-dedupe_from taken (c ∷ cs) = elim (Bool-cases (str_eq c "" || seen c taken)) [
  | inl skipped ↦ rw skipped (dedupe_from-dedupe_from taken cs)
  | inr fresh ↦ rw fresh (rw fresh (ap (λ t. c ∷ t) (dedupe_from-dedupe_from (c ∷ taken) cs)))
]

dedupe_missing :
    (cs : List String)
    → dedupe_from [] cs ≡ cs
    → dedupe_abuse_categories (or_missing cs) ≡ or_missing cs
unfolding dedupe_abuse_categories
dedupe_missing [] e = refl
dedupe_missing (c ∷ cs) e = ap or_missing e

pub dedupe-dedupe :
    (cats : Option (List String))
    → dedupe_abuse_categories (dedupe_abuse_categories cats) ≡ dedupe_abuse_categories cats
dedupe-dedupe none = unfold dedupe_abuse_categories in refl
dedupe-dedupe (some cs) =
    let fixed = dedupe_missing (dedupe_from [] cs) (dedupe_from-dedupe_from [] cs) in
    unfold dedupe_abuse_categories in fixed
