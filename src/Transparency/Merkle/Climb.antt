-- ===== src/Transparency/Merkle/Climb.antt =====
-- The walk of `computeRootFromInclusion` through a tree that has another tree beside it.
use native.Mathlib.Nat.{pow-suc, pow-le-pow_right}
use semp_ts.Common.{
  ℕ, zero, suc, ◌+◌, ◌-◌, ◌/◌, ◌%◌, ◌^◌, ◌≤◌, ◌<◌, ◌≡◌, refl, Bool, true, false, ◌∙◌, arith, List,
  [], ◌∷◌, ◌++◌, ok, if◌then◌else◌, lt→ltb,
}
use semp_ts.Transparency.Merkle.{Bytes, strip, from_left, step_up, climb, hash_interior}
use semp_ts.Transparency.Merkle.Powers.{
  pow_pos, shr-eq, Strips, strip_offset, strip_stops, strip_power, strip_ordered,
}

module _ (sha256 : Bytes → Bytes) where
  abbrev join : Bool → Bytes → Bytes → Bytes
  join up r s = if up then hash_interior sha256 s r else hash_interior sha256 r s

  pub climb-nil : (fn sn : ℕ) (r x : Bytes) → climb sha256 fn sn r [] ≡ ok x → (sn ≡ 0) × (r ≡ x)
  unfolding climb
  climb-nil fn sn r x h = (ground arith, ground arith)

  pub climb-cons :
      (fn sn : ℕ) (r s x : Bytes) (p : List Bytes)
      → climb sha256 fn sn r (s ∷ p) ≡ ok x
      → let up = from_left fn sn in
        (0 < sn) × (climb sha256 (step_up fn sn up).0 (step_up fn sn up).1 (join up r s) p ≡ ok x)
  unfolding climb
  climb-cons fn sn r s x p h = (ground arith, ground arith)

  -- The other way round: a round whose next rounds succeed.
  climb_round :
      (fn sn : ℕ) (r s : Bytes) (p : List Bytes) (up : Bool)
      → 0 < sn
      → from_left fn sn ≡ up
      → climb sha256 fn sn r (s ∷ p)
        ≡ climb sha256 (step_up fn sn up).0 (step_up fn sn up).1 (join up r s) p
  unfolding climb
  climb_round fn sn r s p up pos e = rw (← e, lt→ltb 0 sn pos)

odd_below : (l f : ℕ) → f % 2 ≡ 1 → f < 2 ^ l → 0 < l
odd_below zero f o h = omega arith
odd_below (suc l) f o h = omega arith

half_power : (l : ℕ) → 0 < l → 2 ^ l ≡ 2 ^ (l - 1) + 2 ^ (l - 1)
half_power zero h = omega arith
half_power (suc l) h = let e : suc l - 1 ≡ l = omega arith in rw e (omega (arith, pow-suc 2 l))

-- Where the walk goes from (m, sn) it goes, one power higher, from the same place beside a full tree.
record Beside (j m sn : ℕ) (up : Bool) : Type 0 where
  level : ℕ
  index : (step_up (2 ^ j + m) (2 ^ j + sn) up).0 ≡ 2 ^ level + (step_up m sn up).0
  last : (step_up (2 ^ j + m) (2 ^ j + sn) up).1 ≡ 2 ^ level + (step_up m sn up).1
  ordered : (step_up m sn up).0 ≤ (step_up m sn up).1
  below : (step_up m sn up).1 < 2 ^ level
  lower : 2 ^ level ≤ 2 ^ j

step_up_left :
    (i m sn : ℕ)
    → m ≤ sn
    → sn < 2 ^ suc i
    → 2 ^ suc i + 2 ^ suc i ≤ 4294967296
    → Beside (suc i) m sn false
unfolding step_up
step_up_left i m sn h below w = record {
  level = i;
  index = omega (arith, shr-eq (2 ^ suc i + m), shr-eq m, pow-suc 2 i);
  last = omega (arith, shr-eq (2 ^ suc i + sn), shr-eq sn, pow-suc 2 i);
  ordered = omega (arith, shr-eq m, shr-eq sn);
  below = omega (arith, shr-eq sn, pow-suc 2 i);
  lower = omega (arith, pow-suc 2 i);
}

pow_mono : (i j : ℕ) → i ≤ j → 2 ^ i ≤ 2 ^ j
pow_mono i j h = pow-le-pow_right (omega arith) h

step_up_right :
    (j m sn : ℕ) → 0 < m → m ≤ sn → sn < 2 ^ j → 2 ^ j + 2 ^ j ≤ 4294967296 → Beside j m sn true
unfolding step_up
step_up_right j m sn pos h below w =
    shifted
      (strip_offset m (2 ^ j + m) j m sn (omega arith) (omega arith) pos (omega arith) below w)
  where
    shifted : Strips m j m sn (strip (2 ^ j + m) (2 ^ j + m) (2 ^ j + sn)) → Beside j m sn true
    shifted s =
        let l = s.level in
        let f = (strip m m sn).0 in
        let t = (strip m m sn).1 in
        let positive : 0 < l = odd_below l f s.odd_index s.index_below in
        let up : 2 ^ l ≡ 2 ^ (l - 1) + 2 ^ (l - 1) = half_power l positive in
        let le : 2 ^ l ≤ 2 ^ j = pow_mono l j s.lower in
        let ord : f ≤ t = strip_ordered m m sn h (omega arith) in
        record {
          level = l - 1;
          index = rw s.index (omega (arith, shr-eq (2 ^ l + f), shr-eq f, s.index_below));
          last = rw s.last (omega (arith, shr-eq (2 ^ l + t), shr-eq t, s.last_below));
          ordered = omega (arith, shr-eq f, shr-eq t, s.last_below);
          below = omega (arith, shr-eq t, s.last_below);
          lower = omega arith;
        }

from_left_beside :
    (j m sn : ℕ) (up : Bool)
    → 0 < sn
    → sn < 2 ^ j
    → from_left m sn ≡ up
    → from_left (2 ^ j + m) (2 ^ j + sn) ≡ up
unfolding from_left
from_left_beside zero m sn up pos h e = absurd (omega arith)
from_left_beside (suc j) m sn up pos h e =
    let parity : (2 ^ suc j + m) % 2 ≡ m % 2 = omega (arith, pow-suc 2 j) in ground arith

from_left_pos : (m sn : ℕ) → 0 < sn → from_left m sn ≡ true → 0 < m
unfolding from_left
from_left_pos m sn pos e = ground arith

Beside-round :
    (j m sn : ℕ) (up : Bool)
    → 0 < sn
    → from_left m sn ≡ up
    → m ≤ sn
    → sn < 2 ^ j
    → 2 ^ j + 2 ^ j ≤ 4294967296
    → Beside j m sn up
Beside-round j m sn true pos t h below w = step_up_right j m sn (from_left_pos m sn pos t) h below w
Beside-round zero m sn false pos t h below w = absurd (omega arith)
Beside-round (suc i) m sn false pos t h below w = step_up_left i m sn h below w

-- In a full tree the index is its last one only where it is odd.
from_left_full :
    (j m sn : ℕ) → m < 2 ^ suc j → 2 ^ suc j ≤ sn → from_left m sn ≡ from_left m (2 ^ suc j - 1)
unfolding from_left
from_left_full j m sn h k = ground (arith, pow-suc 2 j, pow_pos j)

plain : (j m : ℕ) → m < 2 ^ suc j → from_left m (2 ^ suc j - 1) ≡ true → m % 2 ≡ 1
unfolding from_left
plain j m h e = ground (arith, pow-suc 2 j, pow_pos j)

-- A round that strips nothing.
step_up_plain :
    (m sn : ℕ) (up : Bool)
    → (up ≡ true → m % 2 ≡ 1)
    → m < 4294967296
    → sn < 4294967296
    → ((step_up m sn up).0 ≡ m / 2) × ((step_up m sn up).1 ≡ sn / 2)
unfolding step_up
step_up_plain m sn true o hm hs = rw (strip_stops m m sn (o refl)) (shr-eq m hm, shr-eq sn hs)
step_up_plain m sn false o hm hs = (shr-eq m hm, shr-eq sn hs)

module _ (sha256 : Bytes → Bytes) where
  -- The last hash of the path is the full tree on the left.
  climb_top :
      (j : ℕ) (r s : Bytes)
      → 2 ^ j < 4294967296
      → climb sha256 (2 ^ j) (2 ^ j) r (s ∷ []) ≡ ok (hash_interior sha256 s r)
  unfolding climb step_up from_left
  climb_top j r s w =
      rw (lt→ltb 0 (2 ^ j) (pow_pos j))
        (ground (arith, strip_power (2 ^ j) j (omega arith) w, shr-eq 1))

  pub climb_beside :
      (p : List Bytes) (j m sn : ℕ) (r x s : Bytes)
      → m ≤ sn
      → sn < 2 ^ j
      → 2 ^ j + 2 ^ j ≤ 4294967296
      → climb sha256 m sn r p ≡ ok x
      → climb sha256 (2 ^ j + m) (2 ^ j + sn) r (p ++ s ∷ []) ≡ ok (hash_interior sha256 s x)
  climb_beside [] j m sn r x s h below w e =
      let (sn0, rx) = climb-nil sha256 m sn r x e in
      let em : 2 ^ j + m ≡ 2 ^ j = omega arith in
      let es : 2 ^ j + sn ≡ 2 ^ j = omega arith in
      rw (em, es, ← rx) (climb_top j r s (omega (arith, pow_pos j)))
  climb_beside (q ∷ p) j m sn r x s h below w e =
      let (pos, rest) = climb-cons sha256 m sn r q x p e in
      let up = from_left m sn in
      let b = Beside-round j m sn up pos refl h below w in
      climb_round sha256 (2 ^ j + m) (2 ^ j + sn) r q (p ++ s ∷ []) up (omega arith)
        (from_left_beside j m sn up pos below refl)
      ∙ rw (b.index, b.last)
          (climb_beside p b.level (step_up m sn up).0 (step_up m sn up).1 (join sha256 up r q) x s
            b.ordered b.below (omega (arith, b.lower)) rest)

  -- A walk through a full tree of 2^j leaves, with more leaves to its right.
  pub climb_full :
      (j : ℕ) (p : List Bytes) (m sn : ℕ) (r x s : Bytes)
      → m < 2 ^ j
      → 2 ^ j ≤ sn
      → sn < 2 ^ j + 2 ^ j
      → 2 ^ j + 2 ^ j ≤ 4294967296
      → climb sha256 m (2 ^ j - 1) r p ≡ ok x
      → climb sha256 m sn r (p ++ s ∷ []) ≡ ok (hash_interior sha256 x s)
  climb_full zero [] m sn r x s hm hs below w e =
      let (_, rx) = climb-nil sha256 m 0 r x e in
      let em : m ≡ 0 = omega arith in
      let es : sn ≡ 1 = omega arith in
      rw (em, es, ← rx) (unfold climb step_up from_left in ground (arith, shr-eq 0, shr-eq 1))
  climb_full zero (q ∷ p) m sn r x s hm hs below w e =
      absurd (omega (arith, (climb-cons sha256 m 0 r q x p e).0))
  climb_full (suc j) [] m sn r x s hm hs below w e =
      absurd (omega (arith, (climb-nil sha256 m _ r x e).0, pow-suc 2 j, pow_pos j))
  climb_full (suc j) (q ∷ p) m sn r x s hm hs below w e =
      let last : ℕ = 2 ^ suc j - 1 in
      let (pos, rest) = climb-cons sha256 m last r q x p e in
      let up = from_left m last in
      let same : from_left m sn ≡ up = from_left_full j m sn hm hs in
      let (i1, l1) = step_up_plain m last up (plain j m hm) (omega arith) (omega arith) in
      let (i2, l2) = step_up_plain m sn up (plain j m hm) (omega arith) (omega arith) in
      let half : last / 2 ≡ 2 ^ j - 1 = omega (arith, pow-suc 2 j, pow_pos j) in
      climb_round sha256 m sn r q (p ++ s ∷ []) up (omega (arith, pow_pos j)) same
      ∙ rw (i2, l2)
          (climb_full j p (m / 2) (sn / 2) (join sha256 up r q) x s (omega (arith, pow-suc 2 j))
            (omega (arith, pow-suc 2 j)) (omega (arith, pow-suc 2 j)) (omega (arith, pow-suc 2 j))
            (rw (i1, l1, half) at rest))
