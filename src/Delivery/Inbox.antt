-- ===== src/Delivery/Inbox.antt =====
-- src/delivery/inbox.ts: the in-memory inbox, a queue of envelopes for each address.
pub mod Fifo
use semp_ts.Common.{
  ℕ, String, Bool, true, false, Option, none, some, List, [], ◌∷◌, ◌++◌, Fallible, ok, throw, ◌>>=◌,
  leb, str_eq, ◌==◌, if◌then◌else◌, length, drop, lookup, insert, remove,
}

abbrev pub default_max_queue_depth : ℕ
default_max_queue_depth = 10000

abbrev pub Payload : Type 0
Payload = List ℕ

pub record Inbox : Type 0 where
  pub queues : List (String × List Payload)
  pub max_depth : ℕ

pub data InboxError : Type 0 where
  empty_address : InboxError

unfoldable pub new_inbox : ℕ → Inbox
new_inbox max_depth = record {
  queues = [];
  max_depth = if max_depth == 0 then default_max_queue_depth else max_depth;
}

-- The queue with the payload at its end; a full one loses its oldest.
unfoldable pub push : ℕ → List Payload → Payload → List Payload
push max_depth queue payload =
    (if leb max_depth (length queue) then drop 1 queue else queue) ++ payload ∷ []

unfoldable pub queue_of : String → Inbox → List Payload
queue_of address inbox = elim (lookup address inbox.queues) [ none ↦ [] | some queue ↦ queue ]

unfoldable pub store : String → Payload → Inbox → Fallible InboxError Inbox
unfolding push
store address payload inbox =
    if str_eq address "" then throw empty_address else elim (lookup address inbox.queues) [
      | none ↦ ok (record inbox { queues = insert address (payload ∷ []) inbox.queues })
      | some queue ↦ ok (record inbox {
        queues = insert address (push inbox.max_depth queue payload) inbox.queues;
      })
    ]

unfoldable pub drain : String → Inbox → Inbox × List Payload
unfolding queue_of
drain address inbox =
    (record inbox { queues = remove address inbox.queues }, queue_of address inbox)

unfoldable pub pending : String → Inbox → ℕ
unfolding queue_of
pending address inbox = length (queue_of address inbox)

-- Several payloads for one address, one after the other.
unfoldable pub store_all : String → List Payload → Inbox → Fallible InboxError Inbox
store_all address [] inbox = ok inbox
store_all address (payload ∷ payloads) inbox =
    store address payload inbox >>= store_all address payloads
