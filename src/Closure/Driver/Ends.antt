-- ===== src/Closure/Driver/Ends.antt =====
-- How a request ends: at the first tick after its time, unless its user cancels it.
use semp_ts.Common.{
  ℕ, ◌≤◌, String, ◌≡◌, refl, ap, ◌∙◌, ◌⊎◌, inl, inr, Bool, true, false, Option, none, some, List,
  [], ◌∷◌, ◌++◌, str_eq, leb, not, ◌||◌, if◌then◌else◌, lookup, All, ok, Bool-cases, le→leb,
}
use semp_ts.Closure.Record.{ClosureRecord, validate_closure_record, finalization_at}
use semp_ts.Closure.Store.{ClosureStore, user_of, get_finalized}
use semp_ts.Closure.Driver.{
  PolicyAnswer, silent, policy_forbidden, is_account_closed, recipient_policy,
}
use semp_ts.Closure.Driver.Accounts.{IsGood, due_at}
use semp_ts.Closure.Driver.Family.{
  Account, Event, submitted, ticked, pruned, view, the_account, filed, is_of, ticked_account,
  account_step, account_run, run,
}
use semp_ts.Closure.Driver.Refinement.{view-run}

module _ (date_parse : String → Option ℕ) where
  -- No cancellation by the user, and no pruning.
  abbrev pub is_quiet : String → Event → Bool
  is_quiet u (submitted r) = not (is_of date_parse u r) || str_eq r.step "request"
  is_quiet u (ticked now) = true
  is_quiet u (pruned retain now) = false

  -- No request by the user.
  abbrev pub is_unasked : String → Event → Bool
  is_unasked u (submitted r) = not (is_of date_parse u r) || not (str_eq r.step "request")
  is_unasked u (ticked now) = true
  is_unasked u (pruned retain now) = true

  -- The account has the request, or is closed.
  IsWatched : ClosureRecord → Account → Type 0
  IsWatched r a = (a.request ≡ some r) ⊎ ((at : ℕ) × (a.closed_at ≡ some at))

  filed-IsWatched :
      (is_mine is_request : Bool) (r q : ClosureRecord) (a : Account)
      → (not is_mine || is_request) ≡ true
      → IsWatched r a
      → IsWatched r (filed is_mine is_request q a)
  unfolding IsWatched
  filed-IsWatched false is_request r q a quiet h = h
  filed-IsWatched true false r q a quiet h = absurd (cc)
  filed-IsWatched true true r q a quiet (inl waits) = inl (rw waits refl)
  filed-IsWatched true true r q a quiet (inr (at, closed)) = inr (at, closed)

  ticked-IsWatched :
      (now : ℕ) (r : ClosureRecord) (request : Option ClosureRecord) (closed_at : Option ℕ)
      → IsWatched r (the_account request closed_at)
      → IsWatched r (ticked_account date_parse now request closed_at)
  unfolding IsWatched
  ticked-IsWatched now r none closed_at h = h
  ticked-IsWatched now r (some q) closed_at h = elim (Bool-cases (leb (due_at date_parse q) now)) [
    | inl e ↦ inr (now, rw e refl)
    | inr e ↦ rw e h
  ]

  account_step-IsWatched :
      (u : String) (r : ClosureRecord) (e : Event) (a : Account)
      → is_quiet u e ≡ true
      → IsWatched r a
      → IsWatched r (account_step date_parse u e a)
  unfolding account_step
  account_step-IsWatched u r (submitted q) a quiet h =
      filed-IsWatched (is_of date_parse u q) (str_eq q.step "request") r q a quiet h
  account_step-IsWatched u r (ticked now) a quiet h = ticked-IsWatched now r a.request a.closed_at h
  account_step-IsWatched u r (pruned retain now) a quiet h = absurd (cc)

  account_run-IsWatched :
      (u : String) (r : ClosureRecord) (es : List Event) (a : Account)
      → All (λ e. is_quiet u e ≡ true) es
      → IsWatched r a
      → IsWatched r (account_run date_parse u es a)
  unfolding account_run
  account_run-IsWatched u r [] a quiet h = h
  account_run-IsWatched u r (e ∷ es) a quiet h =
      account_run-IsWatched u r es (account_step date_parse u e a) quiet.1
        (account_step-IsWatched u r e a quiet.0 h)

  account_run_last :
      (u : String) (es : List Event) (e : Event) (a : Account)
      → account_run date_parse u (es ++ e ∷ []) a
        ≡ account_step date_parse u e (account_run date_parse u es a)
  unfolding account_run
  account_run_last u [] e a = refl
  account_run_last u (f ∷ es) e a = account_run_last u es e (account_step date_parse u f a)

  -- A tick at the request's time finds the account closed, or closes it.
  ticked-closed :
      (now : ℕ) (r : ClosureRecord) (request : Option ClosureRecord) (closed_at : Option ℕ)
      → leb (due_at date_parse r) now ≡ true
      → IsWatched r (the_account request closed_at)
      → (at : ℕ) × ((ticked_account date_parse now request closed_at).closed_at ≡ some at)
  unfolding IsWatched
  ticked-closed now r none closed_at e (inl waits) = absurd (cc)
  ticked-closed now r none closed_at e (inr closed) = closed
  ticked-closed now r (some q) closed_at e (inl waits) =
      let same : leb (due_at date_parse q) now ≡ true = ap (λ o. leb (due_of o) now) waits ∙ e in
      (now, rw same refl)
    where
      due_of : Option ClosureRecord → ℕ
      due_of none = 0
      due_of (some q) = due_at date_parse q
  ticked-closed now r (some q) closed_at e (inr (at, closed)) =
      elim (Bool-cases (leb (due_at date_parse q) now)) [
        | inl later ↦ (now, rw later refl)
        | inr sooner ↦ (at, rw sooner closed)
      ]

  policy-closed :
      (use_silent : Bool) (u : String) (s : ClosureStore) (a : Account) {at : ℕ}
      → view u s ≡ a
      → a.closed_at ≡ some at
      → recipient_policy use_silent u s ≡ some (if use_silent then silent else policy_forbidden)
  unfolding recipient_policy is_account_closed get_finalized view
  policy-closed use_silent u s a {at} e closed =
      let found : lookup u s.finalized ≡ some at = ap (λ b. b.closed_at) e ∙ closed in
      rw found (silent_if use_silent)
    where
      silent_if :
          (b : Bool)
          → ◌≡◌ {A = Option PolicyAnswer}
              (if b then some silent else some policy_forbidden)
              (some (if b then silent else policy_forbidden))
      silent_if true = refl
      silent_if false = refl

  submitted-IsWatched :
      (u : String) (r : ClosureRecord) (s : ClosureStore)
      → validate_closure_record date_parse false r ≡ ok tt
      → str_eq r.step "request" ≡ true
      → str_eq (user_of r) u ≡ true
      → lookup u s.pending ≡ none
      → IsWatched r (account_step date_parse u (submitted r) (view u s))
  unfolding IsWatched account_step view
  submitted-IsWatched u r s valid asks mine free = inl (rw (valid, mine, asks) (rw free refl))

  run_end :
      (u : String) (r : ClosureRecord) (es : List Event) (a : Account) (now : ℕ) {t : ℕ}
      → (account_step date_parse u
          (ticked now)
          (account_run date_parse u es (account_step date_parse u (submitted r) a))).closed_at
        ≡ some t
      → (account_run date_parse u (submitted r ∷ es ++ ticked now ∷ []) a).closed_at ≡ some t
  unfolding account_run
  run_end u r es a now closed =
      ap (λ b. b.closed_at)
        (account_run_last u es (ticked now) (account_step date_parse u (submitted r) a))
      ∙ closed

  -- A valid request is carried out: when a user with no open request submits one, then whatever
  -- other events follow, as long as the user does not cancel and nothing is pruned, a tick at the
  -- finalization time or later leaves the account closed, and deliveries to it are refused.
  pub run-closes :
      (use_silent : Bool) (u : String) (r : ClosureRecord) (es : List Event) (s : ClosureStore)
      (at now : ℕ)
      → IsGood date_parse s
      → validate_closure_record date_parse false r ≡ ok tt
      → str_eq r.step "request" ≡ true
      → str_eq (user_of r) u ≡ true
      → lookup u s.pending ≡ none
      → All (λ e. is_quiet u e ≡ true) es
      → finalization_at date_parse r ≡ ok at
      → at ≤ now
      → recipient_policy use_silent u (run date_parse (submitted r ∷ es ++ ticked now ∷ []) s)
        ≡ some (if use_silent then silent else policy_forbidden)
  unfolding account_step
  run-closes use_silent u r es s at now good valid asks mine free quiet time late =
      let a = account_step date_parse u (submitted r) (view u s) in
      let b = account_run date_parse u es a in
      let watched : IsWatched r b =
        account_run-IsWatched u r es a quiet (submitted-IsWatched u r s valid asks mine free) in
      let due : leb (due_at date_parse r) now ≡ true = rw time (le→leb at now late) in
      let (t, closed) = ticked-closed now r b.request b.closed_at due watched in
      policy-closed use_silent u _ _
        (view-run date_parse u (submitted r ∷ es ++ ticked now ∷ []) s good)
        (run_end u r es (view u s) now closed)

  open_account : Account
  open_account = the_account none none

  account_run-open :
      (u : String) (es : List Event)
      → All (λ e. is_unasked u e ≡ true) es
      → account_run date_parse u es open_account ≡ open_account
  unfolding account_run account_step open_account
  account_run-open u [] h = refl
  account_run-open u (submitted r ∷ es) h =
      ap (account_run date_parse u es)
        (still (is_of date_parse u r) (str_eq r.step "request") r h.0)
      ∙ account_run-open u es h.1
    where
      still :
          (is_mine is_request : Bool) (r : ClosureRecord)
          → (not is_mine || not is_request) ≡ true
          → filed is_mine is_request r (the_account none none) ≡ the_account none none
      still false is_request r quiet = refl
      still true false r quiet = refl
      still true true r quiet = absurd (cc)
  account_run-open u (ticked now ∷ es) h = account_run-open u es h.1
  account_run-open u (pruned retain now ∷ es) h = account_run-open u es h.1

  -- An account is closed only at its own user's request: a user who is not closed and has no open
  -- request stays reachable under all events that are not a valid request by that user.
  pub run-open :
      (use_silent : Bool) (u : String) (es : List Event) (s : ClosureStore)
      → IsGood date_parse s
      → lookup u s.pending ≡ none
      → lookup u s.finalized ≡ none
      → All (λ e. is_unasked u e ≡ true) es
      → recipient_policy use_silent u (run date_parse es s) ≡ none
  unfolding recipient_policy is_account_closed get_finalized view open_account
  run-open use_silent u es s good free reachable unasked =
      let before : view u s ≡ open_account = rw (free, reachable) refl in
      let after : view u (run date_parse es s) ≡ open_account =
        view-run date_parse u es s good
        ∙ ap (account_run date_parse u es) before
        ∙ account_run-open u es unasked in
      let found : lookup u (run date_parse es s).finalized ≡ none = ap (λ b. b.closed_at) after in
      rw found refl
