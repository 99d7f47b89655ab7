-- ===== src/Common/Maps.antt =====
-- A `Map` from texts, as the list of its entries in the order of insertion.
use text.Mathlib.TextEquality.{eq_iff}
use Prim.Native.String.{String}
use Prim.Native.Nat.{ℕ, suc}
use mathlib.Core.Path.{◌≡◌, refl, ◌∙◌, subst}
use mathlib.Core.Logic.{inl, inr}
use mathlib.Core.Bool.{true, false}
use mathlib.Core.Option.{Option, none, some}
use mathlib.Core.List.{List, [], ◌∷◌}
use native.Mathlib.Omega.{arith}
use mathlib.Core.Bool.{Bool, true, false}
use semp_ts.Common.Tests.{str_eq, if◌then◌else◌, Bool-cases}

module _ {ℓ} {A : Type ℓ} where
  abbrev pub lookup : String → List (String × A) → Option A
  lookup k [] = none
  lookup k (e ∷ m) = if str_eq e.0 k then some e.1 else lookup k m

  -- Map.set: a known key keeps its place.
  abbrev pub insert : String → A → List (String × A) → List (String × A)
  insert k a [] = (k, a) ∷ []
  insert k a (e ∷ m) = if str_eq e.0 k then (k, a) ∷ m else e ∷ insert k a m

  -- Map.delete
  abbrev pub remove : String → List (String × A) → List (String × A)
  remove k [] = []
  remove k (e ∷ m) = if str_eq e.0 k then m else e ∷ remove k m

  -- No key stands twice.
  abbrev pub IsMap : List (String × A) → Type ℓ
  IsMap [] = Unit
  IsMap (e ∷ m) = (lookup e.0 m ≡ none) × IsMap m

  pub lookup-insert :
      (k j : String) (a : A) (m : List (String × A))
      → lookup j (insert k a m) ≡ (if str_eq k j then some a else lookup j m)
  lookup-insert k j a [] = refl
  lookup-insert k j a (e ∷ m) =
      ground (arith, lookup-insert k j a m, eq_iff e.0 k, eq_iff e.0 j, eq_iff k j)

  pub insert-IsMap : (k : String) (a : A) (m : List (String × A)) → IsMap m → IsMap (insert k a m)
  insert-IsMap k a [] h = (refl, tt)
  insert-IsMap k a (e ∷ m) h = elim (Bool-cases (str_eq e.0 k)) [
    | inl same ↦ rw same (subst (λ j. lookup j m ≡ none) ((eq_iff e.0 k).0 same) h.0, h.1)
    | inr other ↦ rw other (
      lookup-insert k e.0 a m ∙ ground (arith, eq_iff e.0 k, eq_iff k e.0, h.0, other),
      insert-IsMap k a m h.1,
    )
  ]

  lookup-absent :
      (k j : String) (m : List (String × A))
      → lookup k m ≡ none
      → str_eq k j ≡ true
      → lookup j m ≡ none
  lookup-absent k j m h e = subst (λ i. lookup i m ≡ none) ((eq_iff k j).0 e) h

  lookup-remove_other :
      (k j : String) (m : List (String × A))
      → str_eq k j ≡ false
      → lookup j (remove k m) ≡ lookup j m
  lookup-remove_other k j [] e = refl
  lookup-remove_other k j (p ∷ m) e =
      ground (arith, lookup-remove_other k j m e, eq_iff p.0 k, eq_iff p.0 j, eq_iff k j)

  pub lookup-remove :
      (k j : String) (m : List (String × A))
      → IsMap m
      → lookup j (remove k m) ≡ (if str_eq k j then none else lookup j m)
  lookup-remove k j [] h = ground arith
  lookup-remove k j (e ∷ m) h = ground (
    arith,
    lookup-remove k j m h.1,
    lookup-absent e.0 j m h.0,
    eq_iff e.0 k,
    eq_iff e.0 j,
    eq_iff k j,
  )

  pub remove-IsMap : (k : String) (m : List (String × A)) → IsMap m → IsMap (remove k m)
  remove-IsMap k [] h = tt
  remove-IsMap k (e ∷ m) h = elim (Bool-cases (str_eq e.0 k)) [
    | inl gone ↦ rw gone h.1
    | inr kept ↦ rw kept (lookup-remove k e.0 m h.1 ∙ ground (arith, h.0), remove-IsMap k m h.1)
  ]

module _ {ℓ} {A : Type ℓ} where
  -- The entries whose value passes, and how many do not: a loop that deletes the others.
  abbrev pub keep_entries : (A → Bool) → List (String × A) → List (String × A)
  keep_entries test [] = []
  keep_entries test (e ∷ m) = if test e.1 then e ∷ keep_entries test m else keep_entries test m

  abbrev pub count_dropped : (A → Bool) → List (String × A) → ℕ
  count_dropped test [] = 0
  count_dropped test (e ∷ m) = if test e.1 then count_dropped test m else suc (count_dropped test m)

  -- A value that passes.
  abbrev pub kept : (A → Bool) → Option A → Option A
  kept test none = none
  kept test (some a) = if test a then some a else none

  pub lookup-keep_entries :
      (test : A → Bool) (k : String) (m : List (String × A))
      → IsMap m
      → lookup k (keep_entries test m) ≡ kept test (lookup k m)
  lookup-keep_entries test k [] h = refl
  lookup-keep_entries test k (e ∷ m) h =
      ground (arith, lookup-keep_entries test k m h.1, lookup-absent e.0 k m h.0, eq_iff e.0 k)
