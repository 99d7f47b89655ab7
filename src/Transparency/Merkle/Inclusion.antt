-- ===== src/Transparency/Merkle/Inclusion.antt =====
-- The audit path of a leaf is accepted: `auditPath` and `verifyInclusionProof` agree.
use native.Mathlib.Nat.{pow-suc}
use native.Mathlib.Decide.{dec_lt}
use semp_ts.Common.{
  ℕ, zero, suc, ◌+◌, ◌-◌, ◌^◌, ◌≤◌, ◌<◌, ◌≡◌, subst, get_elem?-lt, ◌∙◌, some, arith, List, [], ◌∷◌,
  length, take, drop, get_elem?, length-take, length-drop, get_elem?-take, get_elem?-drop, ok,
}
use semp_ts.Transparency.Merkle.{
  Bytes, subtree_root, subtree_root_fuel, audit_path_fuel, audit_path, climb,
  compute_root_from_inclusion,
}
use semp_ts.Transparency.Merkle.Powers.{pow_pos, IsSplit, largest-IsSplit}
use semp_ts.Transparency.Merkle.Trees.{
  cut, cut_bounds, pow_room, subtree_root-cut, audit_path_left, audit_path_right,
}
use semp_ts.Transparency.Merkle.Climb.{climb_beside, climb_full}

module _ (sha256 : Bytes → Bytes) where
  abbrev Climbs : ℕ → ℕ → List Bytes → Bytes → Type 0
  Climbs fuel m leaves leaf =
      climb sha256 m (length leaves - 1) leaf (audit_path_fuel sha256 fuel m leaves)
      ≡ ok (subtree_root sha256 leaves)

  -- One cut: the walk through the half that holds the leaf, then the root of the other half.
  climb_cut :
      (fuel j m : ℕ) (leaves : List Bytes) (leaf : Bytes)
      → 2 ≤ length leaves
      → IsSplit (length leaves) (cut (length leaves)) j
      → length leaves ≤ 4294967296
      → (m < cut (length leaves) → Climbs fuel m (take (cut (length leaves)) leaves) leaf)
      → (cut (length leaves) ≤ m
          → Climbs fuel (m - cut (length leaves)) (drop (cut (length leaves)) leaves) leaf)
      → m < length leaves
      → Climbs (suc fuel) m leaves leaf
  climb_cut fuel j m leaves leaf h s word on_left on_right hm = elim (dec_lt m k) [
    | yes p ↦
        let last : length (take k leaves) - 1 ≡ 2 ^ j - 1 = omega (arith, left, s.power) in
        rw (audit_path_left sha256 fuel m leaves h p, subtree_root-cut sha256 leaves h)
          (climb_full sha256 j _ m (length leaves - 1) leaf _ _ (omega arith) (omega arith)
            (omega (arith, s.reaches)) room (rw last at (on_left p)))
    | no p ↦
        let em : 2 ^ j + (m - k) ≡ m = omega (arith, s.power) in
        let es : 2 ^ j + (length leaves - k - 1) ≡ length leaves - 1 =
          omega (arith, s.power, s.below) in
        rw (audit_path_right sha256 fuel m leaves h (omega arith), subtree_root-cut sha256 leaves h)
          (rw (em, es) at
            (climb_beside sha256 (audit_path_fuel sha256 fuel (m - k) (drop k leaves)) j (m - k)
              (length leaves - k - 1) leaf (subtree_root sha256 (drop k leaves))
              (subtree_root sha256 (take k leaves)) (omega arith)
              (omega (arith, s.power, s.reaches, pow_pos j)) room
              (rw right at (on_right (omega arith)))))
  ]
    where
      k : ℕ
      k = cut (length leaves)

      left : length (take k leaves) ≡ k
      left = length-take k leaves (omega (arith, cut_bounds (length leaves) h))

      right : length (drop k leaves) ≡ length leaves - k
      right = length-drop k leaves

      room : 2 ^ j + 2 ^ j ≤ 4294967296
      room = omega (arith, pow_room j 32 (omega (arith, s.below)), pow-suc 2 j)

  pub climb-audit_path_fuel :
      (fuel m : ℕ) (leaves : List Bytes) (leaf : Bytes)
      → length leaves ≤ fuel
      → length leaves ≤ 4294967296
      → get_elem? leaves m ≡ some leaf
      → Climbs fuel m leaves leaf
  climb-audit_path_fuel fuel m [] leaf enough word at_m = cc
  climb-audit_path_fuel zero m (x ∷ xs) leaf enough word at_m = elim enough [ ]
  climb-audit_path_fuel (suc fuel) zero (x ∷ []) leaf enough word at_m =
      unfold climb audit_path_fuel subtree_root subtree_root_fuel in ground arith
  climb-audit_path_fuel (suc fuel) (suc m) (x ∷ []) leaf enough word at_m = cc
  climb-audit_path_fuel (suc fuel) m (x ∷ y ∷ xs) leaf enough word at_m =
      let leaves = x ∷ y ∷ xs in
      let n = length leaves in
      let k = cut n in
      let (pos, below) = cut_bounds n (omega arith) in
      let (j, s) = largest-IsSplit n (omega arith) in
      climb_cut fuel j m leaves leaf (omega arith) s word
        (λ p.
          climb-audit_path_fuel fuel m (take k leaves) leaf (omega (arith, length-take k leaves))
            (omega (arith, length-take k leaves)) (get_elem?-take k m leaves p ∙ at_m))
        (λ p.
          climb-audit_path_fuel fuel (m - k) (drop k leaves) leaf
            (omega (arith, length-drop k leaves)) (omega (arith, length-drop k leaves))
            (get_elem?-drop k (m - k) leaves
              ∙ subst (λ i. get_elem? leaves i ≡ some leaf) (omega arith) at_m))
        (get_elem?-lt leaves m at_m)

  -- For a log of at most 2^32 entries, the walk of `computeRootFromInclusion` along the audit path
  -- of the leaf at index `m` ends without an error at the root of the tree.
  pub compute_root-audit_path :
      (m : ℕ) (leaves : List Bytes) (leaf : Bytes)
      → length leaves ≤ 4294967296
      → get_elem? leaves m ≡ some leaf
      → compute_root_from_inclusion sha256 m (length leaves) leaf (audit_path sha256 m leaves)
        ≡ ok (subtree_root sha256 leaves)
  unfolding compute_root_from_inclusion audit_path
  compute_root-audit_path m leaves leaf word at_m =
      climb-audit_path_fuel (length leaves) m leaves leaf (omega arith) word at_m
