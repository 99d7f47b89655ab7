-- ===== src/Closure/Driver/Family.antt =====
-- The store as a family of accounts that do not interact: each user has an open request or none, and
-- a time of closure or none, and each event of the driver is a step of every account on its own.
use semp_ts.Common.{
  ℕ, String, Bool, true, false, Option, none, some, List, [], ◌∷◌, str_eq, leb, ◌&&◌, if◌then◌else◌,
  lookup, kept, Fallible, ok, throw,
}
use semp_ts.Closure.Record.{ClosureRecord, ClosureError, validate_closure_record}
use semp_ts.Closure.Store.{ClosureStore, user_of, is_retained, prune_finalized}
use semp_ts.Closure.Driver.{submit, tick}
use semp_ts.Closure.Driver.Accounts.{due_at}

pub record Account : Type 0 where
  pub request : Option ClosureRecord
  pub closed_at : Option ℕ

pub data Event : Type 0 where
  submitted : ClosureRecord → Event
  ticked : ℕ → Event
  pruned : ℕ → ℕ → Event

unfoldable pub view : String → ClosureStore → Account
view u s = record { request = lookup u s.pending; closed_at = lookup u s.finalized }

abbrev pub the_account : Option ClosureRecord → Option ℕ → Account
the_account request closed_at = record { request = request; closed_at = closed_at }

abbrev pub or_keep : Option ClosureRecord → ClosureRecord → Option ClosureRecord
or_keep none r = some r
or_keep (some first) r = some first

abbrev pub is_ok : Fallible ClosureError (Unit {0}) → Bool
is_ok (throw e) = false
is_ok (ok u) = true

-- A valid record of the account's user, or another record: the first flag says which.
abbrev pub filed : Bool → Bool → ClosureRecord → Account → Account
filed false is_request r a = a
filed true true r a = record a { request = or_keep a.request r }
filed true false r a = record a { request = none }

module _ (date_parse : String → Option ℕ) where
  -- A valid record of the user.
  abbrev pub is_of : String → ClosureRecord → Bool
  is_of u r = is_ok (validate_closure_record date_parse false r) && str_eq (user_of r) u

  abbrev pub ticked_account : ℕ → Option ClosureRecord → Option ℕ → Account
  ticked_account now none at = record { request = none; closed_at = at }
  ticked_account now (some r) at =
      if leb (due_at date_parse r) now
      then record { request = none; closed_at = some now }
      else record { request = some r; closed_at = at }

  -- The step of one account: the first request stands until it is cancelled or due, the account is
  -- closed at the tick that finds it due, and stays closed until its retention has passed.
  unfoldable pub account_step : String → Event → Account → Account
  account_step u (submitted r) a = filed (is_of u r) (str_eq r.step "request") r a
  account_step u (ticked now) a = ticked_account now a.request a.closed_at
  account_step u (pruned retain now) a = record a {
    closed_at = kept (is_retained retain now) a.closed_at;
  }

  unfoldable pub account_run : String → List Event → Account → Account
  account_run u [] a = a
  account_run u (e ∷ es) a = account_run u es (account_step u e a)

  unfoldable pub step : Event → ClosureStore → ClosureStore
  step (submitted r) s = (submit date_parse r s).0
  step (ticked now) s = (tick date_parse now s).0
  step (pruned retain now) s = (prune_finalized retain now s).0

  unfoldable pub run : List Event → ClosureStore → ClosureStore
  run [] s = s
  run (e ∷ es) s = run es (step e s)
