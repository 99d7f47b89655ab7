-- ===== src/Delivery/Scheduler/Store/Laws.antt =====
-- The store is a dictionary: what a lookup finds after each operation, no key standing twice.
use text.Mathlib.TextEquality.{eq_iff}
use semp_ts.Common.{
  String, ◌≡◌, refl, sym, ap, subst, ◌∙◌, Bool, true, false, Option, none, some, [], ◌∷◌, str_eq,
  if◌then◌else◌, arith, inl, inr, Bool-cases,
}
use semp_ts.Delivery.Queue.{QueueState}
use semp_ts.Delivery.Scheduler.Store.{
  Records, key, put, find, remove_key, select, before, insert_due, sort_due,
}

-- No key stands twice.
abbrev pub IsKeyed : Records → Type 0
IsKeyed [] = Unit
IsKeyed (p ∷ ps) = (find (key p) ps ≡ none) × IsKeyed ps

pub find-put :
    (k : String) (q : QueueState) (s : Records)
    → find k (put q s) ≡ (if str_eq (key q) k then some q else find k s)
unfolding find put
find-put k q [] = refl
find-put k q (p ∷ ps) =
    ground (arith, find-put k q ps, eq_iff (key p) (key q), eq_iff (key p) k, eq_iff (key q) k)

pub put-IsKeyed : (q : QueueState) (s : Records) → IsKeyed s → IsKeyed (put q s)
unfolding put
put-IsKeyed q [] h = unfold find in (refl, tt)
put-IsKeyed q (p ∷ ps) h = elim (Bool-cases (str_eq (key p) (key q))) [
  | inl same ↦ rw same (subst (λ k. find k ps ≡ none) ((eq_iff (key p) (key q)).0 same) h.0, h.1)
  | inr other ↦ rw other (
    find-put (key p) q ps ∙ ground (arith, eq_iff (key p) (key q), eq_iff (key q) (key p), h.0),
    put-IsKeyed q ps h.1,
  )
]

-- A record that passes the test.
abbrev pub keep_if : (QueueState → Bool) → Option QueueState → Option QueueState
keep_if test none = none
keep_if test (some q) = if test q then some q else none

find-absent : (k j : String) (s : Records) → find k s ≡ none → str_eq k j ≡ true → find j s ≡ none
find-absent k j s h e = subst (λ i. find i s ≡ none) ((eq_iff k j).0 e) h

pub find-select :
    (test : QueueState → Bool) (k : String) (s : Records)
    → IsKeyed s
    → find k (select test s) ≡ keep_if test (find k s)
unfolding find select
find-select test k [] h = refl
find-select test k (p ∷ ps) h =
    ground (arith, find-select test k ps h.1, find-absent (key p) k ps h.0, eq_iff (key p) k)

pub select-IsKeyed : (test : QueueState → Bool) (s : Records) → IsKeyed s → IsKeyed (select test s)
unfolding select
select-IsKeyed test [] h = tt
select-IsKeyed test (p ∷ ps) h = elim (Bool-cases (test p)) [
  | inl kept ↦
      rw kept (find-select test (key p) ps h.1 ∙ ap (keep_if test) h.0, select-IsKeyed test ps h.1)
  | inr dropped ↦ rw dropped (select-IsKeyed test ps h.1)
]

find-insert_due :
    (k : String) (q : QueueState) (s : Records)
    → find (key q) s ≡ none
    → find k (insert_due q s) ≡ (if str_eq (key q) k then some q else find k s)
unfolding find insert_due
find-insert_due k q [] h = refl
find-insert_due k q (p ∷ ps) h =
    ground
      (arith, find-insert_due k q ps, eq_iff (key p) (key q), eq_iff (key p) k, eq_iff (key q) k)

insert_due-IsKeyed :
    (q : QueueState) (s : Records) → find (key q) s ≡ none → IsKeyed s → IsKeyed (insert_due q s)
unfolding insert_due
insert_due-IsKeyed q [] h k = unfold find in (refl, tt)
insert_due-IsKeyed q (p ∷ ps) h k = elim (Bool-cases (before q p)) [
  | inl first ↦ rw first (h, k)
  | inr later ↦
      let absent : find (key q) ps ≡ none = unfold find in ground (arith, h) in
      rw later (
        find-insert_due (key p) q ps absent
            ∙ (unfold find in
                ground (arith, h, k.0, eq_iff (key p) (key q), eq_iff (key q) (key p))),
        insert_due-IsKeyed q ps absent k.1,
      )
]

find-cons :
    (k : String) (p : QueueState) (ps : Records)
    → find k (p ∷ ps) ≡ (if str_eq (key p) k then some p else find k ps)
unfolding find
find-cons k p ps = refl

pub find-sort_due : (k : String) (s : Records) → IsKeyed s → find k (sort_due s) ≡ find k s
unfolding sort_due
find-sort_due k [] h = refl
find-sort_due k (p ∷ ps) h =
    find-insert_due k p (sort_due ps) (find-sort_due (key p) ps h.1 ∙ h.0)
    ∙ ap (λ t. if str_eq (key p) k then some p else t) (find-sort_due k ps h.1)
    ∙ sym (find-cons k p ps)

pub sort_due-IsKeyed : (s : Records) → IsKeyed s → IsKeyed (sort_due s)
unfolding sort_due
sort_due-IsKeyed [] h = tt
sort_due-IsKeyed (p ∷ ps) h =
    insert_due-IsKeyed p (sort_due ps) (find-sort_due (key p) ps h.1 ∙ h.0)
      (sort_due-IsKeyed ps h.1)

find-remove_key_other :
    (k j : String) (s : Records) → str_eq k j ≡ false → find j (remove_key k s) ≡ find j s
unfolding find remove_key
find-remove_key_other k j [] e = refl
find-remove_key_other k j (p ∷ ps) e =
    ground (arith, find-remove_key_other k j ps e, eq_iff (key p) k, eq_iff (key p) j, eq_iff k j)

pub find-remove_key :
    (k j : String) (s : Records)
    → IsKeyed s
    → find j (remove_key k s) ≡ (if str_eq k j then none else find j s)
unfolding find remove_key
find-remove_key k j [] h = ground arith
find-remove_key k j (p ∷ ps) h = ground (
  arith,
  find-remove_key k j ps h.1,
  find-absent (key p) j ps h.0,
  eq_iff (key p) k,
  eq_iff (key p) j,
  eq_iff k j,
)

pub remove_key-IsKeyed : (k : String) (s : Records) → IsKeyed s → IsKeyed (remove_key k s)
unfolding remove_key
remove_key-IsKeyed k [] h = tt
remove_key-IsKeyed k (p ∷ ps) h = elim (Bool-cases (str_eq (key p) k)) [
  | inl gone ↦ rw gone h.1
  | inr kept ↦
      rw kept (find-remove_key k (key p) ps h.1 ∙ ground (arith, h.0), remove_key-IsKeyed k ps h.1)
]
