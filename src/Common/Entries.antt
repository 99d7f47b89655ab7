-- ===== src/Common/Entries.antt =====
-- What all the values of a map, or all the elements of a list, have after an operation on it.
use Prim.Native.String.{String}
use mathlib.Core.Path.{◌≡◌, ◌∙◌, ap}
use mathlib.Core.Logic.{inl, inr}
use mathlib.Core.Bool.{Bool}
use mathlib.Core.List.{List, [], ◌∷◌}
use semp_ts.Common.Tests.{str_eq, Bool-cases}
use semp_ts.Common.Lists.{All}
use semp_ts.Common.Maps.{insert, remove, IsMap, keep_entries, lookup-keep_entries, kept}
use semp_ts.Common.Keyed.{select_by, insert_by, sort_by, values, IsIndexed}

module _ {ℓ κ} {A : Type ℓ} (P : A → Type κ) where
  pub All-select_by : (test : A → Bool) (xs : List A) → All P xs → All P (select_by test xs)
  All-select_by test [] h = tt
  All-select_by test (x ∷ xs) h = elim (Bool-cases (test x)) [
    | inl e ↦ rw e (h.0, All-select_by test xs h.1)
    | inr e ↦ rw e (All-select_by test xs h.1)
  ]

  pub All-insert_by :
      (before : A → A → Bool) (a : A) (xs : List A) → P a → All P xs → All P (insert_by before a xs)
  All-insert_by before a [] p h = (p, tt)
  All-insert_by before a (x ∷ xs) p h = elim (Bool-cases (before a x)) [
    | inl e ↦ rw e (p, h)
    | inr e ↦ rw e (h.0, All-insert_by before a xs p h.1)
  ]

  pub All-sort_by : (before : A → A → Bool) (xs : List A) → All P xs → All P (sort_by before xs)
  All-sort_by before [] h = tt
  All-sort_by before (x ∷ xs) h =
      All-insert_by before x (sort_by before xs) h.0 (All-sort_by before xs h.1)

  pub All-insert :
      (k : String) (a : A) (m : List (String × A))
      → P a
      → All P (values m)
      → All P (values (insert k a m))
  All-insert k a [] p h = (p, tt)
  All-insert k a (e ∷ m) p h = elim (Bool-cases (str_eq e.0 k)) [
    | inl same ↦ rw same (p, h.1)
    | inr other ↦ rw other (h.0, All-insert k a m p h.1)
  ]

  pub All-remove :
      (k : String) (m : List (String × A)) → All P (values m) → All P (values (remove k m))
  All-remove k [] h = tt
  All-remove k (e ∷ m) h = elim (Bool-cases (str_eq e.0 k)) [
    | inl same ↦ rw same h.1
    | inr other ↦ rw other (h.0, All-remove k m h.1)
  ]

module _ {ℓ} {A : Type ℓ} (key : A → String) where
  pub insert-IsIndexed :
      (k : String) (a : A) (m : List (String × A))
      → key a ≡ k
      → IsIndexed key m
      → IsIndexed key (insert k a m)
  insert-IsIndexed k a [] e h = (e, tt)
  insert-IsIndexed k a (p ∷ m) e h = elim (Bool-cases (str_eq p.0 k)) [
    | inl same ↦ rw same (e, h.1)
    | inr other ↦ rw other (h.0, insert-IsIndexed k a m e h.1)
  ]

  pub remove-IsIndexed :
      (k : String) (m : List (String × A)) → IsIndexed key m → IsIndexed key (remove k m)
  remove-IsIndexed k [] h = tt
  remove-IsIndexed k (p ∷ m) h = elim (Bool-cases (str_eq p.0 k)) [
    | inl same ↦ rw same h.1
    | inr other ↦ rw other (h.0, remove-IsIndexed k m h.1)
  ]

module _ {ℓ} {A : Type ℓ} where
  pub keep_entries-IsMap :
      (test : A → Bool) (m : List (String × A)) → IsMap m → IsMap (keep_entries test m)
  keep_entries-IsMap test [] h = tt
  keep_entries-IsMap test (e ∷ m) h = elim (Bool-cases (test e.1)) [
    | inl stays ↦
        rw stays
          (lookup-keep_entries test e.0 m h.1 ∙ ap (kept test) h.0, keep_entries-IsMap test m h.1)
    | inr goes ↦ rw goes (keep_entries-IsMap test m h.1)
  ]
