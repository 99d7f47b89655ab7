-- ===== src/Closure/Driver/Refinement.antt =====
-- The driver's store against the family of accounts, event by event.
use text.Mathlib.TextEquality.{eq_iff}
use semp_ts.Common.{
  ℕ, String, ◌≡◌, refl, sym, ap, ap₂, ◌∙◌, subst, inl, inr, true, false, Option, none, some, List,
  [], ◌∷◌, str_eq, leb, if◌then◌else◌, lookup, kept, IsMap, Fallible, ok, throw, arith, Bool-cases,
  insert-IsMap, remove-IsMap, lookup-insert, lookup-remove, remove-IsIndexed, insert-IsIndexed,
  All-insert, All-remove, lookup-keep_entries, keep_entries-IsMap,
}
use semp_ts.Closure.Record.{ClosureRecord, ClosureError, validate_closure_record}
use semp_ts.Closure.Store.{
  ClosureStore, user_of, put_new, put_pending, get_pending, delete_pending, is_retained,
  prune_finalized,
}
use semp_ts.Closure.Driver.{submit, tick, after_put, after_get, submit_checked}
use semp_ts.Closure.Driver.Accounts.{IsClosable, IsGood, valid-IsClosable, due_at}
use semp_ts.Closure.Driver.Due.{due, is_due, tick_lem}
use semp_ts.Closure.Driver.Closing.{taken, close_all-IsGood, close_due-pending, close_due-finalized}
use semp_ts.Closure.Driver.Family.{
  Account, Event, submitted, ticked, pruned, view, the_account, or_keep, filed, ticked_account,
  account_step, account_run, step, run,
}

module _ (date_parse : String → Option ℕ) where
  taken_account :
      (now : ℕ) (request : Option ClosureRecord) (at : Option ℕ)
      → ◌≡◌ {A = Account}
          (record {
            request = taken (kept (is_due date_parse now) request) none request;
            closed_at = taken (kept (is_due date_parse now) request) (some now) at;
          })
          (ticked_account date_parse now request at)
  taken_account now none at = refl
  taken_account now (some r) at = elim (Bool-cases (leb (due_at date_parse r) now)) [
    | inl e ↦ rw e refl
    | inr e ↦ rw e refl
  ]

  view-ticked :
      (u : String) (now : ℕ) (s : ClosureStore)
      → IsGood date_parse s
      → view u (tick date_parse now s).0
        ≡ ticked_account date_parse now (lookup u s.pending) (lookup u s.finalized)
  unfolding view
  view-ticked u now s good =
      ap (λ p. view u p.0) (tick_lem date_parse now s good)
      ∙ ap₂ (λ p at. the_account p at) (close_due-pending date_parse u now s good)
          (close_due-finalized date_parse u now s good)
      ∙ taken_account now (lookup u s.pending) (lookup u s.finalized)

  put_new_lem :
      (r : ClosureRecord) (s : ClosureStore)
      → str_eq (user_of r) "" ≡ false
      → put_pending r s ≡ put_new r s (lookup (user_of r) s.pending)
  unfolding put_pending
  put_new_lem r s named = rw named refl

  view-request :
      (u : String) (r : ClosureRecord) (s : ClosureStore) (found : Option ClosureRecord)
      → lookup (user_of r) s.pending ≡ found
      → view u (after_put s (put_new r s found)).0
        ≡ the_account
            (if str_eq (user_of r) u then or_keep found r else lookup u s.pending)
            (lookup u s.finalized)
  unfolding view
  view-request u r s none e =
      ap (λ p. the_account p (lookup u s.finalized)) (lookup-insert (user_of r) u r s.pending)
  view-request u r s (some first) e =
      ap (λ p. the_account p (lookup u s.finalized)) (ground (arith, e, eq_iff (user_of r) u))

  view-cancel :
      (u : String) (r : ClosureRecord) (s : ClosureStore) (found : Option ClosureRecord)
      → IsMap s.pending
      → lookup (user_of r) s.pending ≡ found
      → view u (after_get r s found).0
        ≡ the_account
            (if str_eq (user_of r) u then none else lookup u s.pending)
            (lookup u s.finalized)
  unfolding view delete_pending
  view-cancel u r s none h e =
      ap (λ p. the_account p (lookup u s.finalized)) (ground (arith, e, eq_iff (user_of r) u))
  view-cancel u r s (some first) h e =
      ap (λ p. the_account p (lookup u s.finalized)) (lookup-remove (user_of r) u s.pending h)

  filed_account :
      (u : String) (r : ClosureRecord) (a : Account)
      → (the_account (if str_eq (user_of r) u then or_keep a.request r else a.request) a.closed_at
          ≡ filed (str_eq (user_of r) u) true r a)
        × (the_account (if str_eq (user_of r) u then none else a.request) a.closed_at
            ≡ filed (str_eq (user_of r) u) false r a)
  filed_account u r a = elim (Bool-cases (str_eq (user_of r) u)) [
    | inl e ↦ rw e (refl, refl)
    | inr e ↦ rw e (refl, refl)
  ]

  -- A user's request looked up under the record's name.
  same_user :
      (u v : String) (r : ClosureRecord) (m : List (String × ClosureRecord))
      → (if str_eq v u then or_keep (lookup v m) r else lookup u m)
        ≡ (if str_eq v u then or_keep (lookup u m) r else lookup u m)
  same_user u v r m = elim (Bool-cases (str_eq v u)) [
    | inl e ↦ rw e (ap (λ k. or_keep (lookup k m) r) ((eq_iff v u).0 e))
    | inr e ↦ rw e refl
  ]

  view-submitted :
      (u : String) (r : ClosureRecord) (s : ClosureStore)
      → IsGood date_parse s
      → view u (submit date_parse r s).0 ≡ account_step date_parse u (submitted r) (view u s)
  unfolding submit account_step get_pending view
  view-submitted u r s good = go (validate_closure_record date_parse false r) refl
    where
      go :
          (answer : Fallible ClosureError (Unit {0}))
          → validate_closure_record date_parse false r ≡ answer
          → view u (submit_checked r s answer).0
            ≡ account_step date_parse u (submitted r) (view u s)
      go (throw e) h = rw h refl
      go (ok _) h = elim (Bool-cases (str_eq r.step "request")) [
        | inl is_request ↦
            rw (h, is_request)
              (rw (put_new_lem r s (IsClosable.named (valid-IsClosable date_parse r h is_request)))
                (view-request u r s (lookup (user_of r) s.pending) refl
                  ∙ ap (λ p. the_account p (lookup u s.finalized))
                      (same_user u (user_of r) r s.pending)
                  ∙ (filed_account u r (view u s)).0))
        | inr is_cancel ↦
            rw (h, is_cancel)
              (view-cancel u r s (lookup (user_of r) s.pending) good.pending_map refl
                ∙ (filed_account u r (view u s)).1)
      ]

  submit-IsGood :
      (r : ClosureRecord) (s : ClosureStore)
      → IsGood date_parse s
      → IsGood date_parse (submit date_parse r s).0
  unfolding submit get_pending delete_pending
  submit-IsGood r s good = go (validate_closure_record date_parse false r) refl
    where
      put :
          IsClosable date_parse r
          → (found : Option ClosureRecord) → IsGood date_parse (after_put s (put_new r s found)).0
      put c (some first) = good
      put c none = record {
        pending_map = insert-IsMap (user_of r) r s.pending good.pending_map;
        finalized_map = good.finalized_map;
        indexed = insert-IsIndexed user_of (user_of r) r s.pending refl good.indexed;
        requests = All-insert (IsClosable date_parse) (user_of r) r s.pending c good.requests;
      }

      cancel : (found : Option ClosureRecord) → IsGood date_parse (after_get r s found).0
      cancel none = good
      cancel (some first) = record {
        pending_map = remove-IsMap (user_of r) s.pending good.pending_map;
        finalized_map = good.finalized_map;
        indexed = remove-IsIndexed user_of (user_of r) s.pending good.indexed;
        requests = All-remove (IsClosable date_parse) (user_of r) s.pending good.requests;
      }

      go :
          (answer : Fallible ClosureError (Unit {0}))
          → validate_closure_record date_parse false r ≡ answer
          → IsGood date_parse (submit_checked r s answer).0
      go (throw e) h = good
      go (ok _) h = elim (Bool-cases (str_eq r.step "request")) [
        | inl e ↦
            let c = valid-IsClosable date_parse r h e in
            rw e (rw (put_new_lem r s c.named) (put c (lookup (user_of r) s.pending)))
        | inr e ↦ rw e (cancel (lookup (user_of r) s.pending))
      ]

  -- Each operation of the driver keeps the store's invariant.
  pub step-IsGood :
      (e : Event) (s : ClosureStore) → IsGood date_parse s → IsGood date_parse (step date_parse e s)
  unfolding step prune_finalized
  step-IsGood (submitted r) s good = submit-IsGood r s good
  step-IsGood (ticked now) s good =
      subst (λ p. IsGood date_parse p.0) (sym (tick_lem date_parse now s good))
        (close_all-IsGood date_parse now (due date_parse now s) s good)
  step-IsGood (pruned retain now) s good = record {
    pending_map = good.pending_map;
    finalized_map = keep_entries-IsMap (is_retained retain now) s.finalized good.finalized_map;
    indexed = good.indexed;
    requests = good.requests;
  }

  view-step :
      (u : String) (e : Event) (s : ClosureStore)
      → IsGood date_parse s
      → view u (step date_parse e s) ≡ account_step date_parse u e (view u s)
  unfolding step account_step view
  view-step u (submitted r) s good = view-submitted u r s good
  view-step u (ticked now) s good = view-ticked u now s good
  view-step u (pruned retain now) s good =
      unfold prune_finalized in
      ap (λ at. the_account (lookup u s.pending) at)
        (lookup-keep_entries (is_retained retain now) u s.finalized good.finalized_map)

  -- The driver refines the family of accounts: whatever the events, each user's part of the store
  -- is what that user's account comes to on its own.
  pub view-run :
      (u : String) (es : List Event) (s : ClosureStore)
      → IsGood date_parse s
      → view u (run date_parse es s) ≡ account_run date_parse u es (view u s)
  unfolding run account_run
  view-run u [] s good = refl
  view-run u (e ∷ es) s good =
      view-run u es (step date_parse e s) (step-IsGood e s good)
      ∙ ap (account_run date_parse u es) (view-step u e s good)
