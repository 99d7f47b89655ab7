-- ===== src/Migration/Lockout.antt =====
-- src/migration/lockout.ts: the registry of local parts that are locked out. The text of `until` is
-- its time in milliseconds, which the code formats and parses without loss; `toLowerCase` is a
-- parameter. A loop of deletions keeps the entries that it does not delete.
pub mod Term
use semp_ts.Common.{
  ℕ, String, Bool, true, false, not, Option, none, some, List, [], ◌∷◌, leb, str_eq, if◌then◌else◌,
  lookup, insert, remove, keep_entries, count_dropped, Fallible, ok, throw,
}

pub record LockoutReservation : Type 0 where
  pub localpart : String
  pub until : ℕ
  pub record_id : String

abbrev pub Registry : Type 0
Registry = List (String × LockoutReservation)

pub data LockoutError : Type 0 where
  empty_localpart : LockoutError
  already_locked_out : LockoutReservation → LockoutError

-- `untilMs <= now`
unfoldable pub has_ended : ℕ → LockoutReservation → Bool
has_ended now r = leb r.until now

module _ (lower : String → String) where
  unfoldable pub reserve : String → ℕ → String → Registry → Fallible LockoutError Registry
  reserve localpart until record_id entries =
      if str_eq localpart ""
      then throw empty_localpart
      else elim (lookup (lower localpart) entries) [
        | some existing ↦ throw (already_locked_out existing)
        | none ↦ ok (
            insert (lower localpart)
              (record { localpart = localpart; until = until; record_id = record_id }) entries)
      ]

  -- The registry after the call comes with the answer: an ended reservation is dropped.
  unfoldable pub is_locked_out : String → ℕ → Registry → Registry × Option LockoutReservation
  unfolding has_ended
  is_locked_out localpart now entries = elim (lookup (lower localpart) entries) [
    | none ↦ (entries, none)
    | some r ↦
        if has_ended now r then (remove (lower localpart) entries, none) else (entries, some r)
  ]

  unfoldable pub release : String → Registry → Registry
  release localpart entries = remove (lower localpart) entries

unfoldable pub prune_expired : ℕ → Registry → Registry × ℕ
prune_expired now entries = (
  keep_entries (λ r. not (has_ended now r)) entries,
  count_dropped (λ r. not (has_ended now r)) entries,
)
