-- ===== src/Common/ConstantTime.antt =====
-- Bytes as numbers, and their comparison in constant time, as several files of the program write it.
use Prim.Native.Nat.{
  ℕ, zero, suc, ◌+◌, ◌*◌, ◌/◌, ◌%◌, ◌≤◌, max, bit_or, bit_xor, bit_or-bitwise, bit_xor-bitwise,
  digits, differ,
}
use mathlib.Core.Path.{◌≡◌, refl, sym, ap, ap₂, ◌∙◌}
use mathlib.Core.Bool.{Bool, true, false}
use mathlib.Core.List.{List, [], ◌∷◌}
use native.Mathlib.Omega.{arith}
use semp_ts.Common.Tests.{◌==◌, if◌then◌else◌}
use semp_ts.Common.Lists.{length}

abbrev pub Bytes : Type 0
Bytes = List ℕ

-- The loop `diff |= a[i] ^ b[i]`; `b` is as long as `a`.
unfoldable pub diff_from : ℕ → Bytes → Bytes → ℕ
diff_from diff [] ys = diff
diff_from diff (x ∷ xs) [] = diff_from (bit_or diff (bit_xor x 0)) xs []
diff_from diff (x ∷ xs) (y ∷ ys) = diff_from (bit_or diff (bit_xor x y)) xs ys

unfoldable pub constant_time_equal : Bytes → Bytes → Bool
unfolding diff_from
constant_time_equal a b = if length a == length b then diff_from 0 a b == 0 else false

differ_zero : (x y : ℕ) → differ x y ≡ 0 → x ≡ y
differ_zero zero y h = sym h
differ_zero (suc x) zero h = h
differ_zero (suc x) (suc y) h = ap suc (differ_zero x y h)

digits-differ : (n a b : ℕ) → a ≤ n → digits (λ b. b) differ n a b ≡ 0 → a ≡ b
digits-differ zero zero b le h = sym h
digits-differ zero (suc a) b le h = absurd (omega arith)
digits-differ (suc n) zero b le h = sym h
digits-differ (suc n) (suc a) b le h =
    let rest = digits (λ b. b) differ n (suc a / 2) (b / 2) in
    let d = differ (suc a % 2) (b % 2) in
    let h1 : rest * 2 + d ≡ 0 = h in
    let r0 : rest ≡ 0 = omega (arith, h1) in
    let d0 : d ≡ 0 = omega (arith, h1) in
    let half : suc a / 2 ≡ b / 2 = digits-differ n (suc a / 2) (b / 2) (omega (arith, le)) r0 in
    let last : suc a % 2 ≡ b % 2 = differ_zero (suc a % 2) (b % 2) d0 in omega (arith, half, last)

digits-max : (n a b : ℕ) → a ≤ n → digits (λ b. b) max n a b ≡ 0 → (a ≡ 0) × (b ≡ 0)
digits-max zero zero b le h = (refl, h)
digits-max zero (suc a) b le h = absurd (omega arith)
digits-max (suc n) zero b le h = (refl, h)
digits-max (suc n) (suc a) b le h =
    let rest = digits (λ b. b) max n (suc a / 2) (b / 2) in
    let d = max (suc a % 2) (b % 2) in
    let h1 : rest * 2 + d ≡ 0 = h in
    let r0 : rest ≡ 0 = omega (arith, h1) in
    let d0 : d ≡ 0 = omega (arith, h1) in
    let (half, other) = digits-max n (suc a / 2) (b / 2) (omega (arith, le)) r0 in
    absurd (omega (arith, half, d0))

bit_xor_zero : (a b : ℕ) → bit_xor a b ≡ 0 → a ≡ b
bit_xor_zero a b h = digits-differ a a b (omega arith) (sym (bit_xor-bitwise a b) ∙ h)

bit_or_zero : (a b : ℕ) → bit_or a b ≡ 0 → (a ≡ 0) × (b ≡ 0)
bit_or_zero a b h = digits-max a a b (omega arith) (sym (bit_or-bitwise a b) ∙ h)

diff_from_zero :
    (diff : ℕ) (a b : Bytes) → length a ≡ length b → diff_from diff a b ≡ 0 → (diff ≡ 0) × (a ≡ b)
unfolding diff_from
diff_from_zero diff [] [] l h = (h, refl)
diff_from_zero diff [] (y ∷ ys) l h = absurd (omega (arith, l))
diff_from_zero diff (x ∷ xs) [] l h = absurd (omega (arith, l))
diff_from_zero diff (x ∷ xs) (y ∷ ys) l h =
    let (first, rest) = diff_from_zero (bit_or diff (bit_xor x y)) xs ys (omega (arith, l)) h in
    let (d0, x0) = bit_or_zero diff (bit_xor x y) first in
    (d0, ap₂ (λ z zs. z ∷ zs) (bit_xor_zero x y x0) rest)

pub constant_time_equal_lem : (a b : Bytes) → constant_time_equal a b ≡ true → a ≡ b
unfolding constant_time_equal
constant_time_equal_lem a b h =
    let (l, d) = both (length a) (length b) (diff_from 0 a b) h in (diff_from_zero 0 a b l d).1
  where
    both : (m n d : ℕ) → (if m == n then d == 0 else false) ≡ true → (m ≡ n) × (d ≡ 0)
    both m n d h = (ground (arith, h), ground (arith, h))
