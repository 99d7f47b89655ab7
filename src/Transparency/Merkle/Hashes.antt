-- ===== src/Transparency/Merkle/Hashes.antt =====
-- Every hash that a tree computes has 32 bytes; equality of bytes.
use semp_ts.Common.{
  All-take, All-drop, ℕ, zero, suc, ◌≡◌, refl, inl, inr, true, arith, List, [], ◌∷◌, length, All,
  String, take, drop, ltb, leb, Bool-cases, ◌-◌, All-append,
}
use semp_ts.Transparency.Platform.{PlatformLaws}
use semp_ts.Transparency.Merkle.{
  Bytes, hash_interior, subtree_root, subtree_root_fuel, audit_path, audit_path_fuel, bytes_equal,
  bytes_equal_from,
}
use semp_ts.Transparency.Merkle.Binding.{IsSized, IsHash}
use semp_ts.Transparency.Merkle.Trees.{cut}

bytes_equal_from-eq : (a b : Bytes) → length a ≡ length b → bytes_equal_from a b ≡ true → a ≡ b
unfolding bytes_equal_from
bytes_equal_from-eq [] [] l h = refl
bytes_equal_from-eq [] (y ∷ b) l h = absurd (omega arith)
bytes_equal_from-eq (x ∷ a) [] l h = absurd (omega arith)
bytes_equal_from-eq (x ∷ a) (y ∷ b) l h = ground (arith, bytes_equal_from-eq a b)

bytes_equal_from_refl : (a : Bytes) → bytes_equal_from a a ≡ true
unfolding bytes_equal_from
bytes_equal_from_refl [] = refl
bytes_equal_from_refl (x ∷ a) = ground (arith, bytes_equal_from_refl a)

pub bytes_equal-eq : (a b : Bytes) → bytes_equal a b ≡ true → a ≡ b
unfolding bytes_equal
bytes_equal-eq a b h = ground (arith, bytes_equal_from-eq a b)

pub bytes_equal_refl : (a : Bytes) → bytes_equal a a ≡ true
unfolding bytes_equal
bytes_equal_refl a = ground (arith, bytes_equal_from_refl a)

pub All-IsSized : (hs : List Bytes) → All IsHash hs → All IsSized hs
All-IsSized [] a = tt
All-IsSized (h ∷ hs) a = (a.0.0, All-IsSized hs a.1)

module _ (sha256 : Bytes → Bytes) (base64_encode : Bytes → String) (base64_decode : String → Bytes)
    (laws : PlatformLaws sha256 base64_encode base64_decode) where
  hash_interior-IsHash : (l r : Bytes) → IsHash (hash_interior sha256 l r)
  unfolding hash_interior
  hash_interior-IsHash l r = (laws.sized _, laws.digest_bytes _)

  subtree_root_fuel-IsHash :
      (fuel : ℕ) (leaves : List Bytes)
      → All IsHash leaves
      → IsHash (subtree_root_fuel sha256 fuel leaves)
  unfolding subtree_root_fuel
  subtree_root_fuel-IsHash fuel [] h = (refl, omega arith)
  subtree_root_fuel-IsHash fuel (x ∷ []) h = h.0
  subtree_root_fuel-IsHash zero (x ∷ y ∷ xs) h = (refl, omega arith)
  subtree_root_fuel-IsHash (suc fuel) (x ∷ y ∷ xs) h = hash_interior-IsHash _ _

  pub subtree_root-IsHash :
      (leaves : List Bytes) → All IsHash leaves → IsHash (subtree_root sha256 leaves)
  unfolding subtree_root
  subtree_root-IsHash leaves h = subtree_root_fuel-IsHash (length leaves) leaves h

  audit_path_fuel-IsHash :
      (fuel m : ℕ) (leaves : List Bytes)
      → All IsHash leaves
      → All IsHash (audit_path_fuel sha256 fuel m leaves)
  unfolding audit_path_fuel
  audit_path_fuel-IsHash zero m leaves h = tt
  audit_path_fuel-IsHash (suc fuel) m leaves h = elim (Bool-cases (leb (length leaves) 1)) [
    | inl one ↦ rw one tt
    | inr more ↦ rw more (elim (Bool-cases (ltb m k)) [
      | inl left ↦ rw left (
          All-append IsHash _ _
            (audit_path_fuel-IsHash fuel m (take k leaves) (All-take IsHash k leaves h))
            (subtree_root-IsHash (drop k leaves) (All-drop IsHash k leaves h), tt))
      | inr right ↦ rw right (
          All-append IsHash _ _
            (audit_path_fuel-IsHash fuel (m - k) (drop k leaves) (All-drop IsHash k leaves h))
            (subtree_root-IsHash (take k leaves) (All-take IsHash k leaves h), tt))
    ])
  ]
    where
      k : ℕ
      k = cut (length leaves)

  pub audit_path-IsHash :
      (m : ℕ) (leaves : List Bytes) → All IsHash leaves → All IsHash (audit_path sha256 m leaves)
  unfolding audit_path
  audit_path-IsHash m leaves h = audit_path_fuel-IsHash (length leaves) m leaves h
