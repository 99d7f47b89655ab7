-- ===== src/Closure/Store.antt =====
-- src/closure/store.ts: InMemoryClosureStore, its pending requests and its finalized accounts.
use Prim.Native.String
use Prim.Native.Nat.{Ordering}
use semp_ts.Common.{
  ℕ, ◌+◌, ◌*◌, String, Bool, true, false, Option, none, some, List, [], ◌∷◌, leb, str_eq,
  if◌then◌else◌, lookup, insert, remove, keep_entries, count_dropped, values, sort_by, length, max,
  Fallible, ok, throw, ◌>>=◌,
}
use semp_ts.Closure.Record.{ClosureRecord, ClosureError, text_of, finalization_at}

pub record ClosureStore : Type 0 where
  pub pending : List (String × ClosureRecord)
  pub finalized : List (String × ℕ)

abbrev pub empty_store : ClosureStore
empty_store = record { pending = []; finalized = [] }

abbrev pub min_retention_ms : ℕ
min_retention_ms = 180 * 24 * 60 * 60 * 1000

abbrev pub recommended_retention_ms : ℕ
recommended_retention_ms = 365 * 24 * 60 * 60 * 1000

pub data StoreError : Type 0 where
  put_pending_no_user put_finalized_no_user already_pending : StoreError
  bad_record : ClosureError → StoreError

abbrev pub user_of : ClosureRecord → String
user_of r = text_of r.user_id

abbrev pub put_new :
    ClosureRecord → ClosureStore → Option ClosureRecord → Fallible StoreError ClosureStore
put_new r s (some existing) = throw already_pending
put_new r s none = ok (record s { pending = insert (user_of r) r s.pending })

unfoldable pub put_pending : ClosureRecord → ClosureStore → Fallible StoreError ClosureStore
put_pending r s =
    if str_eq (user_of r) ""
    then throw put_pending_no_user
    else put_new r s (lookup (user_of r) s.pending)

unfoldable pub get_pending : String → ClosureStore → Option ClosureRecord
get_pending user_id s = lookup user_id s.pending

unfoldable pub delete_pending : String → ClosureStore → ClosureStore
delete_pending user_id s = record s { pending = remove user_id s.pending }

unfoldable pub count_pending : ClosureStore → ℕ
count_pending s = length s.pending

-- a.user_id < b.user_id, or the same.
unfoldable pub user_before : ClosureRecord → ClosureRecord → Bool
user_before a b = elim (String.compare (user_of a) (user_of b)) [ Ordering.gt ↦ false | _ ↦ true ]

-- The argument is a time, as a `Date` that is valid.
unfoldable pub put_finalized : String → ℕ → ClosureStore → Fallible StoreError ClosureStore
put_finalized user_id finalized_at s =
    if str_eq user_id ""
    then throw put_finalized_no_user
    else ok (record s { finalized = insert user_id finalized_at s.finalized })

unfoldable pub get_finalized : String → ClosureStore → Option ℕ
get_finalized user_id s = lookup user_id s.finalized

-- `finalizedAt < now - retainForMs`, as a sum.
unfoldable pub is_retained : ℕ → ℕ → ℕ → Bool
is_retained retain_for_ms now at = leb now (at + max retain_for_ms min_retention_ms)

unfoldable pub prune_finalized : ℕ → ℕ → ClosureStore → ClosureStore × ℕ
prune_finalized retain_for_ms now s = (
  record s { finalized = keep_entries (is_retained retain_for_ms now) s.finalized },
  count_dropped (is_retained retain_for_ms now) s.finalized,
)

-- A record that cannot be read is an error that the store lets through.
abbrev pub or_bad {ℓ} : {A : Type ℓ} → Fallible ClosureError A → Fallible StoreError A
or_bad (throw e) = throw (bad_record e)
or_bad (ok a) = ok a

module _ (date_parse : String → Option ℕ) where
  -- The loop of `duePending`.
  unfoldable pub due_from : ℕ → List ClosureRecord → Fallible StoreError (List ClosureRecord)
  due_from now [] = ok []
  due_from now (r ∷ rs) = do
    at ← or_bad (finalization_at date_parse r)
    due ← due_from now rs
    if leb at now then ok (r ∷ due) else ok due

  unfoldable pub due_pending : ℕ → ClosureStore → Fallible StoreError (List ClosureRecord)
  unfolding due_from
  due_pending now s = due_from now (values s.pending) >>= λ due. ok (sort_by user_before due)
