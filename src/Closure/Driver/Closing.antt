-- ===== src/Closure/Driver/Closing.antt =====
-- What the operations of the driver keep, and what a tick makes of the account of one user.
use semp_ts.Common.{
  ℕ, String, ◌≡◌, refl, ap, ◌∙◌, Bool, true, false, Option, none, some, List, [], ◌∷◌, str_eq,
  if◌then◌else◌, lookup, kept, IsMap, find_by, insert-IsMap, remove-IsMap, lookup-insert,
  lookup-remove, remove-IsIndexed, All-remove, find_by-sort_by, find_by-select_by, find_by-values,
  values-IsUnique, select_by-IsUnique,
}
use semp_ts.Closure.Record.{ClosureRecord}
use semp_ts.Closure.Store.{ClosureStore, user_of, user_before}
use semp_ts.Closure.Driver.Accounts.{IsClosable, IsGood}
use semp_ts.Closure.Driver.Due.{close, close_all, due, is_due}

-- The first value where the list had a record of the user, else the second.
abbrev pub taken {ℓ} : {A : Type ℓ} → Option ClosureRecord → A → A → A
taken none closed other = other
taken (some r) closed other = closed

module _ (date_parse : String → Option ℕ) where
  close-IsGood :
      (now : ℕ) (r : ClosureRecord) (s : ClosureStore)
      → IsGood date_parse s
      → IsGood date_parse (close now r s)
  close-IsGood now r s good = record {
    pending_map = remove-IsMap (user_of r) s.pending good.pending_map;
    finalized_map = insert-IsMap (user_of r) now s.finalized good.finalized_map;
    indexed = remove-IsIndexed user_of (user_of r) s.pending good.indexed;
    requests = All-remove (IsClosable date_parse) (user_of r) s.pending good.requests;
  }

  pub close_all-IsGood :
      (now : ℕ) (rs : List ClosureRecord) (s : ClosureStore)
      → IsGood date_parse s
      → IsGood date_parse (close_all now rs s)
  close_all-IsGood now [] s good = good
  close_all-IsGood now (r ∷ rs) s good =
      close_all-IsGood now rs (close now r s) (close-IsGood now r s good)

  close_all-pending :
      (u : String) (now : ℕ) (rs : List ClosureRecord) (s : ClosureStore)
      → IsMap s.pending
      → lookup u (close_all now rs s).pending
        ≡ taken (find_by user_of u rs) none (lookup u s.pending)
  close_all-pending u now [] s h = refl
  close_all-pending u now (r ∷ rs) s h =
      close_all-pending u now rs (close now r s) (remove-IsMap (user_of r) s.pending h)
      ∙ rw (lookup-remove (user_of r) u s.pending h)
          (take_first (str_eq (user_of r) u) r (find_by user_of u rs) (lookup u s.pending))
    where
      take_first :
          (same : Bool) (r : ClosureRecord) (rest found : Option ClosureRecord)
          → taken rest none (if same then none else found)
            ≡ taken (if same then some r else rest) none found
      take_first true r none found = refl
      take_first true r (some q) found = refl
      take_first false r rest found = refl

  close_all-finalized :
      (u : String) (now : ℕ) (rs : List ClosureRecord) (s : ClosureStore)
      → lookup u (close_all now rs s).finalized
        ≡ taken (find_by user_of u rs) (some now) (lookup u s.finalized)
  close_all-finalized u now [] s = refl
  close_all-finalized u now (r ∷ rs) s =
      close_all-finalized u now rs (close now r s)
      ∙ rw (lookup-insert (user_of r) u now s.finalized)
          (take_first (str_eq (user_of r) u) r (find_by user_of u rs) (lookup u s.finalized))
    where
      take_first :
          (same : Bool) (r : ClosureRecord) (rest : Option ClosureRecord) (found : Option ℕ)
          → taken rest (some now) (if same then some now else found)
            ≡ taken (if same then some r else rest) (some now) found
      take_first true r none found = refl
      take_first true r (some q) found = refl
      take_first false r rest found = refl

  -- The request of a user that a tick takes up.
  find_by-due :
      (u : String) (now : ℕ) (s : ClosureStore)
      → IsGood date_parse s
      → find_by user_of u (due date_parse now s) ≡ kept (is_due date_parse now) (lookup u s.pending)
  find_by-due u now s good =
      let unique = values-IsUnique user_of s.pending good.pending_map good.indexed in
      find_by-sort_by user_of user_before u _
        (select_by-IsUnique user_of (is_due date_parse now) _ unique)
      ∙ find_by-select_by user_of (is_due date_parse now) u _ unique
      ∙ ap (kept (is_due date_parse now)) (find_by-values user_of u s.pending good.indexed)

  pub close_due-pending :
      (u : String) (now : ℕ) (s : ClosureStore)
      → IsGood date_parse s
      → lookup u (close_all now (due date_parse now s) s).pending
        ≡ taken (kept (is_due date_parse now) (lookup u s.pending)) none (lookup u s.pending)
  close_due-pending u now s good =
      close_all-pending u now (due date_parse now s) s good.pending_map
      ∙ ap (λ r. taken r none (lookup u s.pending)) (find_by-due u now s good)

  pub close_due-finalized :
      (u : String) (now : ℕ) (s : ClosureStore)
      → IsGood date_parse s
      → lookup u (close_all now (due date_parse now s) s).finalized
        ≡ taken
            (kept (is_due date_parse now) (lookup u s.pending))
            (some now)
            (lookup u s.finalized)
  close_due-finalized u now s good =
      close_all-finalized u now (due date_parse now s) s
      ∙ ap (λ r. taken r (some now) (lookup u s.finalized)) (find_by-due u now s good)
