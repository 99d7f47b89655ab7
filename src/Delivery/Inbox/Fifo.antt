-- ===== src/Delivery/Inbox/Fifo.antt =====
-- What a drain hands out: the newest payloads up to the depth, oldest first.
use text.Mathlib.TextEquality.{eq_iff}
use semp_ts.Common.{
  ℕ, zero, suc, ◌+◌, ◌-◌, ◌≤◌, ◌<◌, String, ◌≡◌, refl, sym, ap, ◌∙◌, inl, inr, false, List, [], ◌∷◌,
  ◌++◌, ok, ◌>>=◌, leb, str_eq, if◌then◌else◌, length, drop, lookup, insert, arith, Bool-cases,
  Option-cases, ◌≢◌, lookup-insert, lookup-remove, length-append, length-drop, IsMap, insert-IsMap,
  ap₂,
}
use semp_ts.Delivery.Inbox.{Inbox, Payload, push, queue_of, store, drain, store_all, pending}

-- The last `n` of a list.
abbrev pub newest {ℓ} : {A : Type ℓ} → ℕ → List A → List A
newest n xs = drop (length xs - n) xs

module _ {ℓ} {A : Type ℓ} where
  drop-append : (n : ℕ) (xs ys : List A) → n ≤ length xs → drop n (xs ++ ys) ≡ drop n xs ++ ys
  drop-append zero xs ys h = refl
  drop-append (suc n) [] ys h = absurd (omega arith)
  drop-append (suc n) (x ∷ xs) ys h = drop-append n xs ys (omega arith)

  drop-drop : (n : ℕ) (xs : List A) → drop 1 (drop n xs) ≡ drop (suc n) xs
  drop-drop zero xs = refl
  drop-drop (suc n) [] = refl
  drop-drop (suc n) (x ∷ xs) = drop-drop n xs

  drop_nothing : (n : ℕ) (xs : List A) → n ≡ 0 → drop n xs ≡ xs
  drop_nothing n xs e = rw e refl

-- A push keeps the newest.
push-newest :
    (depth : ℕ) (xs : List Payload) (p : Payload)
    → 0 < depth
    → push depth (newest depth xs) p ≡ newest depth (xs ++ p ∷ [])
unfolding push
push-newest depth xs p pos =
    let long : length (xs ++ p ∷ []) ≡ length xs + 1 = length-append xs (p ∷ []) in
    let kept : length (newest depth xs) ≡ length xs - (length xs - depth) =
      length-drop (length xs - depth) xs in
    elim (Bool-cases (leb depth (length (newest depth xs)))) [
      | inl full ↦
          let e : length (xs ++ p ∷ []) - depth ≡ suc (length xs - depth) =
            ground (arith, full, long, kept) in
          rw (full, e)
            (ap (λ ys. ys ++ p ∷ []) (drop-drop (length xs - depth) xs)
              ∙ sym
                  (drop-append (suc (length xs - depth)) xs (p ∷ []) (ground (arith, full, kept))))
      | inr room ↦
          let e : length (xs ++ p ∷ []) - depth ≡ 0 = ground (arith, room, long, kept) in
          let e' : length xs - depth ≡ 0 = ground (arith, room, kept) in rw (room, e, e') refl
    ]

-- A payload is pushed onto the queue of its address, and the other queues stay.
pub record Stored (address : String) (payload : Payload) (inbox inbox' : Inbox) : Type 0 where
  queues_after :
      (k : String)
      → queue_of k inbox' ≡ (
          if str_eq address k
          then push inbox.max_depth (queue_of address inbox) payload
          else queue_of k inbox)
  same_depth : inbox'.max_depth ≡ inbox.max_depth
  map_after : IsMap inbox.queues → IsMap inbox'.queues

named : (address : String) → address ≢ "" → str_eq address "" ≡ false
named address h = elim (Bool-cases (str_eq address "")) [
  | inl e ↦ absurd (h ((eq_iff address "").0 e))
  | inr e ↦ e
]

push_empty : (depth : ℕ) (p : Payload) → push depth [] p ≡ p ∷ []
unfolding push
push_empty depth p = ground arith

pub store-Stored :
    (address : String) (payload : Payload) (inbox : Inbox)
    → address ≢ ""
    → (inbox' : Inbox) × (store address payload inbox ≡ ok inbox')
      × Stored address payload inbox inbox'
unfolding store queue_of
store-Stored address payload inbox h = elim (Option-cases (lookup address inbox.queues)) [
  | inl absent ↦
      let fresh = record inbox { queues = insert address (payload ∷ []) inbox.queues } in
      (
        fresh,
        ground (arith, named address h, absent),
        record {
          queues_after = λ k. ground (
            arith,
            absent,
            lookup-insert address k (payload ∷ []) inbox.queues,
            push_empty inbox.max_depth payload,
          );
          same_depth = refl;
          map_after = insert-IsMap address (payload ∷ []) inbox.queues;
        },
      )
  | inr (queue, found) ↦
      let longer = push inbox.max_depth queue payload in
      (
        record inbox { queues = insert address longer inbox.queues },
        ground (arith, named address h, found),
        record {
          queues_after = λ k. ground (arith, found, lookup-insert address k longer inbox.queues);
          same_depth = refl;
          map_after = insert-IsMap address longer inbox.queues;
        },
      )
]

append_assoc : (xs ys zs : List Payload) → (xs ++ ys) ++ zs ≡ xs ++ (ys ++ zs)
append_assoc [] ys zs = refl
append_assoc (x ∷ xs) ys zs = ap (λ t. x ∷ t) (append_assoc xs ys zs)

append_nil : (xs : List Payload) → xs ++ [] ≡ xs
append_nil [] = refl
append_nil (x ∷ xs) = ap (λ t. x ∷ t) (append_nil xs)

-- Whatever has been stored for an address before, after more payloads its queue is the newest of all
-- of them up to the depth, oldest first; the queues of the other addresses stay.
pub store_all-newest :
    (address : String) (earlier payloads : List Payload) (inbox : Inbox)
    → address ≢ ""
    → 0 < inbox.max_depth
    → IsMap inbox.queues
    → queue_of address inbox ≡ newest inbox.max_depth earlier
    → (inbox' : Inbox) × (store_all address payloads inbox ≡ ok inbox')
      × (queue_of address inbox' ≡ newest inbox.max_depth (earlier ++ payloads))
      × ((k : String) → str_eq address k ≡ false → queue_of k inbox' ≡ queue_of k inbox)
      × IsMap inbox'.queues
      × (inbox'.max_depth ≡ inbox.max_depth)
unfolding store_all
store_all-newest address earlier [] inbox h pos keyed now = (
  inbox,
  refl,
  now ∙ ap (newest inbox.max_depth) (sym (append_nil earlier)),
  λ k e. refl,
  keyed,
  refl,
)
store_all-newest address earlier (p ∷ ps) inbox h pos keyed now =
    let (next, done, stored) = store-Stored address p inbox h in
    let pushed : queue_of address next ≡ push inbox.max_depth (queue_of address inbox) p =
      ground (arith, stored.queues_after address, eq_iff address address) in
    let here : queue_of address next ≡ newest next.max_depth (earlier ++ p ∷ []) =
      rw stored.same_depth (
        pushed
        ∙ ap (λ q. push inbox.max_depth q p) now
        ∙ push-newest inbox.max_depth earlier p pos) in
    let (last, finished, queue, others, keyed', depth) =
      store_all-newest address (earlier ++ p ∷ []) ps next h (rw stored.same_depth pos)
        (stored.map_after keyed) here in
    (
      last,
      ap (λ t. t >>= store_all address ps) done ∙ finished,
      queue ∙ ap₂ newest stored.same_depth (append_assoc earlier (p ∷ []) ps),
      λ k e. others k e ∙ stored.queues_after k ∙ ground (arith, e),
      keyed',
      depth ∙ stored.same_depth,
    )

-- After payloads stored for an address whose queue was empty, a drain hands out the newest of them up
-- to the depth, oldest first, then the address has nothing pending, and all other queues are as
-- before the stores.
pub drain-newest :
    (address : String) (payloads : List Payload) (inbox : Inbox)
    → address ≢ ""
    → 0 < inbox.max_depth
    → IsMap inbox.queues
    → queue_of address inbox ≡ []
    → (inbox' : Inbox) × (store_all address payloads inbox ≡ ok inbox')
      × ((drain address inbox').1 ≡ newest inbox.max_depth payloads)
      × (pending address (drain address inbox').0 ≡ 0)
      × ((k : String)
          → str_eq address k ≡ false
          → queue_of k (drain address inbox').0 ≡ queue_of k inbox)
unfolding drain pending
drain-newest address payloads inbox h pos keyed empty =
    let (inbox', done, queue, others, keyed', depth) =
      store_all-newest address [] payloads inbox h pos keyed
        (empty ∙ sym (none_kept inbox.max_depth)) in
    (
      inbox',
      done,
      queue,
      unfold queue_of in
          ground
            (arith, lookup-remove address address inbox'.queues keyed', eq_iff address address),
      λ k e.
          (unfold queue_of in ground (arith, lookup-remove address k inbox'.queues keyed', e))
          ∙ others k e,
    )
  where
    none_kept : (depth : ℕ) → ◌≡◌ {A = List Payload} (newest depth []) []
    none_kept depth = drop_nothing (0 - depth) [] (omega arith)
