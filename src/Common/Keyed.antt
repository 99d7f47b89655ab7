-- ===== src/Common/Keyed.antt =====
-- Lists of values with a key, no key standing twice: what a lookup finds after a selection and a sort.
use text.Mathlib.TextEquality.{eq_iff}
use Prim.Native.String.{String}
use mathlib.Core.Path.{◌≡◌, refl, ◌∙◌, ap, subst}
use mathlib.Core.Logic.{inl, inr}
use mathlib.Core.Bool.{Bool, true}
use mathlib.Core.Option.{Option, none, some}
use mathlib.Core.List.{List, [], ◌∷◌}
use native.Mathlib.Omega.{arith}
use semp_ts.Common.Tests.{str_eq, if◌then◌else◌, Bool-cases}
use semp_ts.Common.Maps.{lookup, IsMap, kept}

module _ {ℓ} {A : Type ℓ} where
  abbrev pub find_by : (A → String) → String → List A → Option A
  find_by key k [] = none
  find_by key k (x ∷ xs) = if str_eq (key x) k then some x else find_by key k xs

  abbrev pub IsUnique : (A → String) → List A → Type ℓ
  IsUnique key [] = Unit
  IsUnique key (x ∷ xs) = (find_by key (key x) xs ≡ none) × IsUnique key xs

  -- xs.filter(test)
  abbrev pub select_by : (A → Bool) → List A → List A
  select_by test [] = []
  select_by test (x ∷ xs) = if test x then x ∷ select_by test xs else select_by test xs

  abbrev pub insert_by : (A → A → Bool) → A → List A → List A
  insert_by before a [] = a ∷ []
  insert_by before a (x ∷ xs) = if before a x then a ∷ x ∷ xs else x ∷ insert_by before a xs

  -- xs.sort(): stable, where `before` says that its first argument may stand before the second.
  abbrev pub sort_by : (A → A → Bool) → List A → List A
  sort_by before [] = []
  sort_by before (x ∷ xs) = insert_by before x (sort_by before xs)

  -- map.values()
  abbrev pub values : List (String × A) → List A
  values [] = []
  values (e ∷ m) = e.1 ∷ values m

module _ {ℓ} {A : Type ℓ} (key : A → String) where
  find_absent :
      (k j : String) (xs : List A)
      → find_by key k xs ≡ none
      → str_eq k j ≡ true
      → find_by key j xs ≡ none
  find_absent k j xs h e = subst (λ i. find_by key i xs ≡ none) ((eq_iff k j).0 e) h

  pub find_by-select_by :
      (test : A → Bool) (k : String) (xs : List A)
      → IsUnique key xs
      → find_by key k (select_by test xs) ≡ kept test (find_by key k xs)
  find_by-select_by test k [] h = refl
  find_by-select_by test k (x ∷ xs) h =
      ground
        (arith, find_by-select_by test k xs h.1, find_absent (key x) k xs h.0, eq_iff (key x) k)

  pub select_by-IsUnique :
      (test : A → Bool) (xs : List A) → IsUnique key xs → IsUnique key (select_by test xs)
  select_by-IsUnique test [] h = tt
  select_by-IsUnique test (x ∷ xs) h = elim (Bool-cases (test x)) [
    | inl passed ↦
        rw passed (
          find_by-select_by test (key x) xs h.1 ∙ ap (kept test) h.0,
          select_by-IsUnique test xs h.1,
        )
    | inr dropped ↦ rw dropped (select_by-IsUnique test xs h.1)
  ]

  find_by-insert_by :
      (before : A → A → Bool) (k : String) (a : A) (xs : List A)
      → find_by key (key a) xs ≡ none
      → find_by key k (insert_by before a xs)
        ≡ (if str_eq (key a) k then some a else find_by key k xs)
  find_by-insert_by before k a [] h = refl
  find_by-insert_by before k a (x ∷ xs) h = ground (
    arith,
    find_by-insert_by before k a xs,
    eq_iff (key x) (key a),
    eq_iff (key x) k,
    eq_iff (key a) k,
  )

  insert_by-IsUnique :
      (before : A → A → Bool) (a : A) (xs : List A)
      → find_by key (key a) xs ≡ none
      → IsUnique key xs
      → IsUnique key (insert_by before a xs)
  insert_by-IsUnique before a [] h u = (refl, tt)
  insert_by-IsUnique before a (x ∷ xs) h u = elim (Bool-cases (before a x)) [
    | inl first ↦ rw first (h, u)
    | inr later ↦
        let absent : find_by key (key a) xs ≡ none = ground (arith, h) in
        rw later (
          find_by-insert_by before (key x) a xs absent
              ∙ ground (arith, h, u.0, eq_iff (key x) (key a), eq_iff (key a) (key x)),
          insert_by-IsUnique before a xs absent u.1,
        )
  ]

  pub find_by-sort_by :
      (before : A → A → Bool) (k : String) (xs : List A)
      → IsUnique key xs
      → find_by key k (sort_by before xs) ≡ find_by key k xs
  find_by-sort_by before k [] h = refl
  find_by-sort_by before k (x ∷ xs) h =
      find_by-insert_by before k x (sort_by before xs) (find_by-sort_by before (key x) xs h.1 ∙ h.0)
      ∙ ap (λ t. if str_eq (key x) k then some x else t) (find_by-sort_by before k xs h.1)

  pub sort_by-IsUnique :
      (before : A → A → Bool) (xs : List A) → IsUnique key xs → IsUnique key (sort_by before xs)
  sort_by-IsUnique before [] h = tt
  sort_by-IsUnique before (x ∷ xs) h =
      insert_by-IsUnique before x (sort_by before xs) (find_by-sort_by before (key x) xs h.1 ∙ h.0)
        (sort_by-IsUnique before xs h.1)

  -- Every entry stands at its value's key.
  abbrev pub IsIndexed : List (String × A) → Type 0
  IsIndexed [] = Unit
  IsIndexed (e ∷ m) = (key e.1 ≡ e.0) × IsIndexed m

  pub find_by-values :
      (k : String) (m : List (String × A)) → IsIndexed m → find_by key k (values m) ≡ lookup k m
  find_by-values k [] h = refl
  find_by-values k (e ∷ m) h = rw (h.0, find_by-values k m h.1) refl

  pub values-IsUnique : (m : List (String × A)) → IsMap m → IsIndexed m → IsUnique key (values m)
  values-IsUnique [] h i = tt
  values-IsUnique (e ∷ m) h i =
      (find_by-values (key e.1) m i.1 ∙ ap (λ k. lookup k m) i.0 ∙ h.0, values-IsUnique m h.1 i.1)
