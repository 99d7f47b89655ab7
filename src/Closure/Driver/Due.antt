-- ===== src/Closure/Driver/Due.antt =====
-- The requests that a tick takes up, and what its loop makes of the store.
use semp_ts.Common.{
  ℕ, String, ◌≡◌, refl, inl, inr, Bool, true, false, Option, List, [], ◌∷◌, map, leb, if◌then◌else◌,
  insert, remove, All, values, select_by, sort_by, Fallible, ok, Bool-cases, All-select_by,
  All-sort_by,
}
use semp_ts.Closure.Record.{ClosureRecord}
use semp_ts.Closure.Store.{
  ClosureStore, StoreError, user_of, user_before, put_finalized, delete_pending, due_from,
  due_pending,
}
use semp_ts.Closure.Driver.{FinalizeResult, tick_one, tick_loop, tick}
use semp_ts.Closure.Driver.Accounts.{IsClosable, IsGood, due_at, due_at-finalizable}

abbrev pub report : ℕ → ClosureRecord → FinalizeResult
report now r = record { user_id = user_of r; finalized_at = now }

-- The account of a record, closed.
abbrev pub close : ℕ → ClosureRecord → ClosureStore → ClosureStore
close now r s = record {
  pending = remove (user_of r) s.pending;
  finalized = insert (user_of r) now s.finalized;
}

abbrev pub close_all : ℕ → List ClosureRecord → ClosureStore → ClosureStore
close_all now [] s = s
close_all now (r ∷ rs) s = close_all now rs (close now r s)

module _ (date_parse : String → Option ℕ) (now : ℕ) where
  abbrev pub is_due : ClosureRecord → Bool
  is_due r = leb (due_at date_parse r) now

  -- The requests of the store that are due, by user.
  abbrev pub due : ClosureStore → List ClosureRecord
  due s = sort_by user_before (select_by is_due (values s.pending))

  abbrev Found : Type 0
  Found = Fallible StoreError (List ClosureRecord)

  ok_if :
      (test : Bool) (r : ClosureRecord) (rest : List ClosureRecord)
      → ◌≡◌ {A = Found}
          (if test then ok (r ∷ rest) else ok rest)
          (ok (if test then r ∷ rest else rest))
  ok_if true r rest = refl
  ok_if false r rest = refl

  due_from_lem :
      (rs : List ClosureRecord)
      → All (IsClosable date_parse) rs
      → due_from date_parse now rs ≡ ok (select_by is_due rs)
  unfolding due_from
  due_from_lem [] h = refl
  due_from_lem (r ∷ rs) h =
      rw (h.0.at_lem, due_from_lem rs h.1) (ok_if (leb h.0.at now) r (select_by is_due rs))

  pub due_pending_lem :
      (s : ClosureStore) → IsGood date_parse s → due_pending date_parse now s ≡ ok (due s)
  unfolding due_pending
  due_pending_lem s good = rw (due_from_lem (values s.pending) good.requests) refl

  -- Every one that is taken up is a request that is due.
  select_by-IsDue : (rs : List ClosureRecord) → All (λ r. is_due r ≡ true) (select_by is_due rs)
  select_by-IsDue [] = tt
  select_by-IsDue (r ∷ rs) = elim (Bool-cases (is_due r)) [
    | inl e ↦ rw e (e, select_by-IsDue rs)
    | inr e ↦ rw e (select_by-IsDue rs)
  ]

  tick_one-due :
      (r : ClosureRecord) (s : ClosureStore)
      → IsClosable date_parse r
      → is_due r ≡ true
      → tick_one date_parse now r s ≡ ok (close now r s, report now r ∷ [])
  unfolding tick_one put_finalized delete_pending
  tick_one-due r s c e = rw (due_at-finalizable date_parse r now c, e, c.named) refl

  tick_loop-due :
      (rs : List ClosureRecord) (s : ClosureStore)
      → All (IsClosable date_parse) rs
      → All (λ r. is_due r ≡ true) rs
      → tick_loop date_parse now rs s ≡ (close_all now rs s, ok (map (report now) rs))
  unfolding tick_loop
  tick_loop-due [] s h e = refl
  tick_loop-due (r ∷ rs) s h e =
      rw (tick_one-due r s h.0 e.0, tick_loop-due rs (close now r s) h.1 e.1) refl

  -- In a store of valid requests, a tick throws nothing, closes the account of every request that
  -- is due and of no other, and reports them in the order of the users.
  pub tick_lem :
      (s : ClosureStore)
      → IsGood date_parse s
      → tick date_parse now s ≡ (close_all now (due s) s, ok (map (report now) (due s)))
  unfolding tick
  tick_lem s good = rw (due_pending_lem s good) (
      tick_loop-due (due s) s
        (All-sort_by (IsClosable date_parse) user_before _
          (All-select_by (IsClosable date_parse) is_due (values s.pending) good.requests))
        (All-sort_by (λ r. is_due r ≡ true) user_before _ (select_by-IsDue (values s.pending))))
