-- ===== src/Closure/Driver.antt =====
-- src/closure/driver.ts: the driver of closures over the in-memory store. The errors that a method
-- lets through come as its result, with the store as it is by then.
pub mod Accounts
pub mod Due
pub mod Closing
pub mod Family
pub mod Ends
pub mod Refinement
mod Tests
use semp_ts.Common.{
  ℕ, String, Bool, true, false, not, Option, none, some, List, [], ◌∷◌, ◌++◌, str_eq, if◌then◌else◌,
  Fallible, ok, throw, ◌>>=◌,
}
use semp_ts.Closure.Record.{ClosureRecord, ClosureError, validate_closure_record, is_finalizable}
use semp_ts.Closure.Store.{
  ClosureStore, StoreError, already_pending, or_bad, user_of, put_pending, get_pending,
  delete_pending, put_finalized, get_finalized, due_pending,
}

pub data SubmitResult : Type 0 where
  accepted already_pending_result not_pending : SubmitResult
  invalid : ClosureError → SubmitResult

pub record FinalizeResult : Type 0 where
  pub user_id : String
  pub finalized_at : ℕ

-- The catch around `putPending`.
abbrev pub after_put :
    ClosureStore
    → Fallible StoreError ClosureStore
    → ClosureStore × Fallible StoreError SubmitResult
after_put s (ok s') = (s', ok accepted)
after_put s (throw already_pending) = (s, ok already_pending_result)
after_put s (throw e) = (s, throw e)

abbrev pub after_get :
    ClosureRecord
    → ClosureStore
    → Option ClosureRecord
    → ClosureStore × Fallible StoreError SubmitResult
after_get r s none = (s, ok not_pending)
after_get r s (some existing) = (delete_pending (user_of r) s, ok accepted)

abbrev pub submit_checked :
    ClosureRecord
    → ClosureStore
    → Fallible ClosureError (Unit {0})
    → ClosureStore × Fallible StoreError SubmitResult
submit_checked r s (throw e) = (s, ok (invalid e))
submit_checked r s (ok _) =
    if str_eq r.step "request"
    then after_put s (put_pending r s)
    else after_get r s (get_pending (user_of r) s)

-- What a run of the loop leaves: the store, and what it returns or throws.
abbrev pub Run : Type 0
Run = ClosureStore × Fallible StoreError (List FinalizeResult)

-- A round that throws ends the loop; the rounds before it have changed the store.
abbrev pub after_one :
    ClosureStore
    → Fallible StoreError (ClosureStore × List FinalizeResult)
    → (ClosureStore → Run)
    → Run
after_one s (throw e) rest = (s, throw e)
after_one s (ok (s', out)) rest = ((rest s').0, (rest s').1 >>= λ more. ok (out ++ more))

abbrev pub over_due :
    ClosureStore → Fallible StoreError (List ClosureRecord) → (List ClosureRecord → Run) → Run
over_due s (throw e) loop = (s, throw e)
over_due s (ok due) loop = loop due

-- The answer of a delivery policy: what the recipient's server reports for a closed account.
pub data PolicyAnswer : Type 0 where
  silent policy_forbidden : PolicyAnswer

module _ (date_parse : String → Option ℕ) where
  unfoldable pub submit :
      ClosureRecord → ClosureStore → ClosureStore × Fallible StoreError SubmitResult
  submit r s = submit_checked r s (validate_closure_record date_parse false r)

  -- `putFinalized`, then `deletePending`.
  abbrev pub closed_by :
      ℕ → ClosureRecord → ClosureStore → Fallible StoreError (ClosureStore × List FinalizeResult)
  closed_by now r s = do
    s' ← put_finalized (user_of r) now s
    ok (delete_pending (user_of r) s', record { user_id = user_of r; finalized_at = now } ∷ [])

  -- A round of the loop of `tick`.
  unfoldable pub tick_one :
      ℕ → ClosureRecord → ClosureStore → Fallible StoreError (ClosureStore × List FinalizeResult)
  tick_one now r s = do
    finalizable ← or_bad (is_finalizable date_parse r now)
    if not finalizable then ok (s, []) else closed_by now r s

  unfoldable pub tick_loop : ℕ → List ClosureRecord → ClosureStore → Run
  tick_loop now [] s = (s, ok [])
  tick_loop now (r ∷ rs) s = after_one s (tick_one now r s) (tick_loop now rs)

  unfoldable pub tick : ℕ → ClosureStore → Run
  tick now s = over_due s (due_pending date_parse now s) (λ due. tick_loop now due s)

-- Not null.
abbrev pub is_present : Option ℕ → Bool
is_present none = false
is_present (some at) = true

unfoldable pub is_account_closed : String → ClosureStore → Bool
is_account_closed user_id s = is_present (get_finalized user_id s)

-- The store in memory does not fail, so the catch of `recipientPolicy` is not reached.
unfoldable pub recipient_policy : Bool → String → ClosureStore → Option PolicyAnswer
unfolding is_account_closed
recipient_policy use_silent recipient s =
    if not (is_account_closed recipient s)
    then none
    else if use_silent
    then some silent
    else some policy_forbidden
