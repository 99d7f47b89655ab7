-- ===== src/Transparency/Merkle/Powers.antt =====
-- The powers of two that merkle.ts computes, its 32-bit shift, and the stripping of zero digits.
use native.Mathlib.Nat.{pow-suc}
use semp_ts.Common.{
  ℕ, zero, suc, ◌+◌, ◌*◌, ◌/◌, ◌%◌, ◌^◌, ◌≤◌, ◌<◌, ◌≡◌, refl, subst, true, false, ◌&&◌, not, ◌∙◌,
  ==_iff, inl, inr, arith, ltb, leb, ◌==◌, Bool-cases, ltb→lt,
}
use semp_ts.Transparency.Merkle.{shr, odd, double_below, largest_power_of_two_less_than, strip}

pub pow_pos : (j : ℕ) → 0 < 2 ^ j
pow_pos zero = omega arith
pow_pos (suc j) = omega (arith, pow-suc 2 j, pow_pos j)

pub shr-eq : (n : ℕ) → n < 4294967296 → shr n ≡ n / 2
unfolding shr
shr-eq n h = omega arith

-- A power of two below `n` whose double is not.
pub record IsSplit (n k j : ℕ) : Type 0 where
  pub power : k ≡ 2 ^ j
  pub below : 2 ^ j < n
  pub reaches : n ≤ 2 ^ j + 2 ^ j

double_below-IsSplit :
    (fuel j n : ℕ)
    → 2 ^ j < n
    → n ≤ fuel + 2 ^ j
    → (i : ℕ) × IsSplit n (double_below fuel (2 ^ j) n) i
unfolding double_below
double_below-IsSplit zero j n h f = absurd (omega arith)
double_below-IsSplit (suc fuel) j n h f = elim (Bool-cases (ltb (2 ^ j * 2) n)) [
  | inl more ↦
      let lt : 2 ^ j * 2 < n = ltb→lt _ _ more in
      let (i, s) =
        double_below-IsSplit fuel (suc j) n (omega (arith, pow-suc 2 j))
          (omega (arith, pow-suc 2 j, pow_pos j)) in
      (i, rw more (subst (λ k. IsSplit n (double_below fuel k n) i) (pow-suc 2 j) s))
  | inr done ↦ (j, rw done (record { power = refl; below = h; reaches = ground arith }))
]

pub largest-IsSplit : (n : ℕ) → 2 ≤ n → (j : ℕ) × IsSplit n (largest_power_of_two_less_than n) j
unfolding largest_power_of_two_less_than
largest-IsSplit n h =
    let test : leb n 1 ≡ false = ground arith in
    rw test (double_below-IsSplit n 0 n (omega arith) (omega arith))

-- Stripping the zero digits of `m` below a power of two is undone by the power above it.
pub record Strips (fuel j m sn : ℕ) (big : ℕ × ℕ) : Type 0 where
  pub level : ℕ
  pub index : big.0 ≡ 2 ^ level + (strip fuel m sn).0
  pub last : big.1 ≡ 2 ^ level + (strip fuel m sn).1
  pub odd_index : (strip fuel m sn).0 % 2 ≡ 1
  pub index_below : (strip fuel m sn).0 < 2 ^ level
  pub last_below : (strip fuel m sn).1 < 2 ^ level
  pub lower : level ≤ j

pub strip_stops : (fuel n sn : ℕ) → n % 2 ≡ 1 → strip fuel n sn ≡ (n, sn)
unfolding strip
strip_stops zero n sn h = refl
strip_stops (suc fuel) n sn h = ground arith

pub strip_goes :
    (fuel n sn : ℕ)
    → 0 < n
    → n % 2 ≡ 0
    → n < 4294967296
    → sn < 4294967296
    → strip (suc fuel) n sn ≡ strip fuel (n / 2) (sn / 2)
unfolding strip
strip_goes fuel n sn pos even h k =
    let test : (not (n == 0) && not (odd n)) ≡ true = ground arith in
    rw test (rw (shr-eq n h, shr-eq sn k))

pub strip_offset :
    (k1 k2 j m sn : ℕ)
    → m ≤ k1
    → 2 ^ j + m ≤ k2
    → 0 < m
    → m < 2 ^ j
    → sn < 2 ^ j
    → 2 ^ j + 2 ^ j ≤ 4294967296
    → Strips k1 j m sn (strip k2 (2 ^ j + m) (2 ^ j + sn))
strip_offset zero k2 j m sn h1 h2 pos hm hs w = absurd (omega arith)
strip_offset (suc k1) zero j m sn h1 h2 pos hm hs w = absurd (omega arith)
strip_offset (suc k1) (suc k2) zero m sn h1 h2 pos hm hs w = absurd (omega arith)
strip_offset (suc k1) (suc k2) (suc i) m sn h1 h2 pos hm hs w = elim (Bool-cases (odd m)) [
  | inl o ↦
      let o' : m % 2 ≡ 1 = (==_iff _ _).0 o in
      let o'' : (2 ^ suc i + m) % 2 ≡ 1 = omega (arith, pow-suc 2 i) in
      rw (strip_stops (suc k2) _ (2 ^ suc i + sn) o'') (stopped (strip_stops (suc k1) m sn o') o')
  | inr e ↦
      let e' : m % 2 ≡ 0 = ground arith in
      let go_small = strip_goes k1 m sn pos e' (omega arith) (omega arith) in
      let go_big =
        strip_goes k2 (2 ^ suc i + m) (2 ^ suc i + sn) (omega arith) (omega (arith, pow-suc 2 i))
          (omega arith) (omega arith) in
      let half_m : (2 ^ suc i + m) / 2 ≡ 2 ^ i + m / 2 = omega (arith, pow-suc 2 i) in
      let half_sn : (2 ^ suc i + sn) / 2 ≡ 2 ^ i + sn / 2 = omega (arith, pow-suc 2 i) in
      rw (go_big, half_m, half_sn)
        (lift go_small (
          strip_offset k1 k2 i (m / 2) (sn / 2) (omega arith)
            (omega (arith, pow-suc 2 i, pow_pos i)) (omega arith) (omega (arith, pow-suc 2 i))
            (omega (arith, pow-suc 2 i)) (omega (arith, pow-suc 2 i))))
]
  where
    stopped :
        strip (suc k1) m sn ≡ (m, sn)
        → m % 2 ≡ 1
        → Strips (suc k1) (suc i) m sn (2 ^ suc i + m, 2 ^ suc i + sn)
    stopped e o = record {
      level = suc i;
      index = rw e;
      last = rw e;
      odd_index = rw e o;
      index_below = rw e hm;
      last_below = rw e hs;
      lower = omega arith;
    }

    lift :
        {big : ℕ × ℕ}
        → strip (suc k1) m sn ≡ strip k1 (m / 2) (sn / 2)
        → Strips k1 i (m / 2) (sn / 2) big
        → Strips (suc k1) (suc i) m sn big
    lift e s = record {
      level = s.level;
      index = rw e s.index;
      last = rw e s.last;
      odd_index = rw e s.odd_index;
      index_below = rw e s.index_below;
      last_below = rw e s.last_below;
      lower = omega (arith, s.lower);
    }

-- A power of two is stripped to 1.
pub strip_power :
    (fuel j : ℕ) → 2 ^ j ≤ fuel → 2 ^ j < 4294967296 → strip fuel (2 ^ j) (2 ^ j) ≡ (1, 1)
strip_power fuel zero h w = strip_stops fuel 1 1 refl
strip_power zero (suc j) h w = absurd (omega (arith, pow_pos (suc j)))
strip_power (suc fuel) (suc j) h w =
    let half : 2 ^ suc j / 2 ≡ 2 ^ j = omega (arith, pow-suc 2 j) in
    strip_goes fuel (2 ^ suc j) (2 ^ suc j) (pow_pos (suc j)) (omega (arith, pow-suc 2 j)) w w
    ∙ rw half
        (strip_power fuel j (omega (arith, pow-suc 2 j, pow_pos j)) (omega (arith, pow-suc 2 j)))

pub strip_ordered :
    (fuel m sn : ℕ) → m ≤ sn → sn < 4294967296 → (strip fuel m sn).0 ≤ (strip fuel m sn).1
unfolding strip
strip_ordered zero m sn h w = h
strip_ordered (suc fuel) m sn h w =
    ground (arith, shr-eq m, shr-eq sn, strip_ordered fuel (shr m) (shr sn))
