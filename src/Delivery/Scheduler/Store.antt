-- ===== src/Delivery/Scheduler/Store.antt =====
-- `InMemorySchedulerStore` of src/delivery/scheduler.ts: a `Map` from (envelope, recipient) to
-- records, as the list of its values in the order of insertion.
pub mod Laws
use Prim.Native.Char.{nul}
use Prim.Native.String
use Prim.Native.Nat.{Ordering}
use semp_ts.Common.{
  ℕ, String, Bool, true, false, ◌&&◌, not, Option, none, some, List, [], ◌∷◌, leb, ltb, str_eq,
  ◌==◌, if◌then◌else◌,
}
use semp_ts.Delivery.Queue.{QueueState, is_terminal_state}

abbrev pub Records : Type 0
Records = List QueueState

-- `${envelopeId}\x00${recipient}`
unfoldable pub key_of : String → String → String
key_of envelope_id recipient = String.◌++◌ envelope_id (String.◌∷◌ nul recipient)

abbrev pub key : QueueState → String
key q = key_of q.envelope_id q.recipient

-- Map.set: a known key keeps its place.
unfoldable pub put : QueueState → Records → Records
put q [] = q ∷ []
put q (p ∷ ps) = if str_eq (key p) (key q) then q ∷ ps else p ∷ put q ps

unfoldable pub find : String → Records → Option QueueState
find k [] = none
find k (p ∷ ps) = if str_eq (key p) k then some p else find k ps

unfoldable pub get : String → String → Records → Option QueueState
get envelope_id recipient store = find (key_of envelope_id recipient) store

-- Map.delete
unfoldable pub remove_key : String → Records → Records
remove_key k [] = []
remove_key k (p ∷ ps) = if str_eq (key p) k then ps else p ∷ remove_key k ps

unfoldable pub delete : String → String → Records → Records
delete envelope_id recipient store = remove_key (key_of envelope_id recipient) store

-- Not terminal, and its next attempt is at or before `now`.
unfoldable pub is_due : ℕ → QueueState → Bool
is_due now q =
    not (is_terminal_state q.state) && elim q.next_attempt_at [ none ↦ false | some t ↦ leb t now ]

unfoldable pub select : (QueueState → Bool) → Records → Records
select test [] = []
select test (p ∷ ps) = if test p then p ∷ select test ps else select test ps

abbrev pub next_or_zero : QueueState → ℕ
next_or_zero q = elim q.next_attempt_at [ none ↦ 0 | some t ↦ t ]

-- The comparison of `dueRecords`: whether `p` may stand before `q`. Two records of one envelope that
-- are due at one time compare as greater both ways there; here the sort keeps their order.
unfoldable pub before : QueueState → QueueState → Bool
before p q =
    if next_or_zero p == next_or_zero q
    then elim (String.compare p.envelope_id q.envelope_id) [ Ordering.gt ↦ false | _ ↦ true ]
    else ltb (next_or_zero p) (next_or_zero q)

unfoldable pub insert_due : QueueState → Records → Records
insert_due q [] = q ∷ []
insert_due q (p ∷ ps) = if before q p then q ∷ p ∷ ps else p ∷ insert_due q ps

unfoldable pub sort_due : Records → Records
sort_due [] = []
sort_due (p ∷ ps) = insert_due p (sort_due ps)

unfoldable pub due_records : ℕ → Records → Records
due_records now store = sort_due (select (is_due now) store)

-- Terminal, and it ended at or before `cutoff`.
unfoldable pub is_stale : ℕ → QueueState → Bool
is_stale cutoff q =
    is_terminal_state q.state && elim q.terminal_at [ none ↦ false | some t ↦ leb t cutoff ]

unfoldable pub list_terminal_older_than : ℕ → Records → Records
list_terminal_older_than cutoff store = select (is_stale cutoff) store
