-- ===== src/Transparency/Merkle/Trees.antt =====
-- The recursions of `subtreeRoot` and `auditPath` have fuel enough, and satisfy the equations of
-- RFC 6962 section 2.1.
use native.Mathlib.Nat.{pow-le-pow_right}
use native.Mathlib.Decide.{dec_le}
use semp_ts.Common.{
  ℕ, zero, suc, ◌-◌, ◌^◌, ◌≤◌, ◌<◌, ◌≡◌, refl, arith, List, [], ◌∷◌, ◌++◌, length, take, drop,
  length-take, length-drop, ap₂, lt→leb, lt→ltb, le→ltb,
}
use semp_ts.Transparency.Merkle.{
  Bytes, largest_power_of_two_less_than, hash_interior, subtree_root_fuel, subtree_root,
  audit_path_fuel,
}
use semp_ts.Transparency.Merkle.Powers.{pow_pos, largest-IsSplit}

-- Where the source cuts a list of `n` leaves.
abbrev pub cut : ℕ → ℕ
cut = largest_power_of_two_less_than

pub cut_bounds : (n : ℕ) → 2 ≤ n → (0 < cut n) × (cut n < n)
cut_bounds n h = let (j, s) = largest-IsSplit n h in rw s.power (omega (arith, pow_pos j, s.below))

-- A power of two below another leaves room for its double.
pub pow_room : (j k : ℕ) → 2 ^ j < 2 ^ k → 2 ^ suc j ≤ 2 ^ k
pow_room j k h = elim (dec_le (suc j) k) [
  | yes p ↦ pow-le-pow_right (omega arith) p
  | no p ↦ absurd (omega (arith, pow_le k j (omega arith)))
]
  where
    pow_le : (a b : ℕ) → a ≤ b → 2 ^ a ≤ 2 ^ b
    pow_le a b q = pow-le-pow_right (omega arith) q

module _ (sha256 : Bytes → Bytes) where
  subtree_root_enough :
      (f g : ℕ) (leaves : List Bytes)
      → length leaves ≤ f
      → length leaves ≤ g
      → subtree_root_fuel sha256 f leaves ≡ subtree_root_fuel sha256 g leaves
  unfolding subtree_root_fuel
  subtree_root_enough zero zero leaves hf hg = refl
  subtree_root_enough f g [] hf hg = refl
  subtree_root_enough f g (leaf ∷ []) hf hg = refl
  subtree_root_enough zero (suc g) (leaf ∷ next ∷ rest) hf hg = elim hf [ ]
  subtree_root_enough (suc f) zero (leaf ∷ next ∷ rest) hf hg = elim hg [ ]
  subtree_root_enough (suc f) (suc g) (leaf ∷ next ∷ rest) hf hg =
      let leaves = leaf ∷ next ∷ rest in
      let k = cut (length leaves) in
      let (pos, below) = cut_bounds (length leaves) (omega arith) in
      let left : length (take k leaves) ≡ k = length-take k leaves (omega arith) in
      let right : length (drop k leaves) ≡ length leaves - k = length-drop k leaves in
      ap₂ (hash_interior sha256)
        (subtree_root_enough f g (take k leaves) (omega arith) (omega arith))
        (subtree_root_enough f g (drop k leaves) (omega arith) (omega arith))

  -- MTH(D[0:n]) by its two halves.
  pub subtree_root-cut :
      (leaves : List Bytes)
      → 2 ≤ length leaves
      → subtree_root sha256 leaves
        ≡ hash_interior sha256
            (subtree_root sha256 (take (cut (length leaves)) leaves))
            (subtree_root sha256 (drop (cut (length leaves)) leaves))
  unfolding subtree_root
  subtree_root-cut [] h = elim h [ ]
  subtree_root-cut (leaf ∷ []) h = absurd (omega arith)
  subtree_root-cut (leaf ∷ next ∷ rest) h =
      let leaves = leaf ∷ next ∷ rest in
      let k = cut (length leaves) in
      let (pos, below) = cut_bounds (length leaves) h in
      let left : length (take k leaves) ≡ k = length-take k leaves (omega arith) in
      let right : length (drop k leaves) ≡ length leaves - k = length-drop k leaves in
      unfold subtree_root_fuel in
      ap₂ (hash_interior sha256)
        (subtree_root_enough (suc (length rest)) (length (take k leaves)) (take k leaves)
          (omega arith) (omega arith))
        (subtree_root_enough (suc (length rest)) (length (drop k leaves)) (drop k leaves)
          (omega arith) (omega arith))

  pub subtree_root-one : (leaf : Bytes) → subtree_root sha256 (leaf ∷ []) ≡ leaf
  unfolding subtree_root subtree_root_fuel
  subtree_root-one leaf = refl

  pub audit_path_left :
      (fuel m : ℕ) (leaves : List Bytes)
      → 2 ≤ length leaves
      → m < cut (length leaves)
      → audit_path_fuel sha256 (suc fuel) m leaves
        ≡ audit_path_fuel sha256 fuel m (take (cut (length leaves)) leaves)
          ++ subtree_root sha256 (drop (cut (length leaves)) leaves) ∷ []
  unfolding audit_path_fuel
  audit_path_left fuel m leaves h below = rw (lt→leb _ _ h, lt→ltb _ _ below)

  pub audit_path_right :
      (fuel m : ℕ) (leaves : List Bytes)
      → 2 ≤ length leaves
      → cut (length leaves) ≤ m
      → audit_path_fuel sha256 (suc fuel) m leaves
        ≡ audit_path_fuel sha256 fuel (m - cut (length leaves)) (drop (cut (length leaves)) leaves)
          ++ subtree_root sha256 (take (cut (length leaves)) leaves) ∷ []
  unfolding audit_path_fuel
  audit_path_right fuel m leaves h above = rw (lt→leb _ _ h, le→ltb _ _ above)
