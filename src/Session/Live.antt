-- ===== src/Session/Live.antt =====
-- src/session/session.ts: the Session. Key buffers are shared with whoever holds them, so they live
-- in a heap, from a buffer's name to its bytes, and the keys are names of buffers. `sent` is what the
-- transport has been given, and `shut` that it has been closed; its failures are answers that the
-- caller passes in.
pub mod Keys
use semp_ts.Common.{
  ℕ, ◌+◌, ◌*◌, String, Bool, true, false, ◌||◌, Option, none, some, List, [], ◌∷◌, ◌++◌, leb, ◌==◌,
  if◌then◌else◌, Fallible, ok, throw,
}

abbrev pub Heap : Type 0
Heap = ℕ → List ℕ

abbrev pub blank : List ℕ → List ℕ
blank [] = []
blank (b ∷ bs) = 0 ∷ blank bs

unfoldable pub zero_buffer : ℕ → Heap → Heap
zero_buffer b heap j = if b == j then blank (heap j) else heap j

pub record SessionKeys : Type 0 where
  pub enc_c2s : ℕ
  pub enc_s2c : ℕ
  pub mac_c2s : ℕ
  pub mac_s2c : ℕ
  pub env_mac : ℕ
  pub resumption : Option ℕ

abbrev pub zero_optional : Option ℕ → Heap → Heap
zero_optional none heap = heap
zero_optional (some b) heap = zero_buffer b heap

-- The calls of `zero` on a session's keys, in their order.
unfoldable pub zero_keys : SessionKeys → Heap → Heap
unfolding zero_buffer
zero_keys k heap = zero_optional k.resumption (
    zero_buffer k.env_mac (
      zero_buffer k.mac_s2c
        (zero_buffer k.mac_c2s (zero_buffer k.enc_s2c (zero_buffer k.enc_c2s heap)))))

pub data SessionError : Type 0 where
  keys_erased closed rekey_after_erase rekey_closed : SessionError
  transport_failed : String → SessionError

pub record Session : Type 0 where
  pub session_id : String
  pub session_ttl : ℕ
  pub established_at : ℕ
  pub keys : Option SessionKeys
  pub is_closed : Bool
  pub sent : List (List ℕ)
  pub shut : Bool

-- The session and the heap, which every method may change.
pub record World : Type 0 where
  pub session : Session
  pub heap : Heap

unfoldable pub new_session : String → ℕ → ℕ → SessionKeys → Heap → World
new_session session_id session_ttl established_at keys heap = record {
  session = record {
    session_id = session_id;
    session_ttl = session_ttl;
    established_at = established_at;
    keys = some keys;
    is_closed = false;
    sent = [];
    shut = false;
  };
  heap = heap;
}

unfoldable pub expires_at : Session → ℕ
expires_at s = s.established_at + s.session_ttl * 1000

unfoldable pub is_expired : ℕ → Session → Bool
unfolding expires_at
is_expired now s = leb (expires_at s) now

unfoldable pub keys_of : Session → Fallible SessionError SessionKeys
keys_of s = elim s.keys [ none ↦ throw keys_erased | some k ↦ ok k ]

-- `failure` is the error with which the transport rejects, if it does.
unfoldable pub send : List ℕ → Option String → World → World × Fallible SessionError (Unit {0})
send message failure w = if w.session.is_closed then (w, throw closed) else elim failure [
  | some e ↦ (w, throw (transport_failed e))
  | none ↦
      (record w { session = record w.session { sent = w.session.sent ++ message ∷ [] } }, ok tt)
]

-- `answer` is what the transport gives: none at the end of the stream.
unfoldable pub receive :
    Fallible String (Option (List ℕ)) → World → Fallible SessionError (Option (List ℕ))
receive answer w =
    if w.session.is_closed
    then throw closed
    else elim answer [ throw e ↦ throw (transport_failed e) | ok frame ↦ ok frame ]

-- A failing close of the transport is caught.
unfoldable pub close : World → World
close w =
    if w.session.is_closed
    then w
    else record w { session = record w.session { is_closed = true; shut = true } }

unfoldable pub apply_rekey : String → SessionKeys → World → Fallible SessionError World
apply_rekey new_session_id new_keys w = elim w.session.keys [
  | none ↦ throw rekey_after_erase
  | some prev ↦
      if w.session.is_closed
      then throw rekey_closed
      else ok (record {
        session = record w.session { keys = some new_keys; session_id = new_session_id };
        heap = zero_keys prev w.heap;
      })
]

unfoldable pub erase_keys : World → World
erase_keys w = elim w.session.keys [
  | none ↦ w
  | some k ↦ record { session = record w.session { keys = none }; heap = zero_keys k w.heap }
]

unfoldable pub erase : World → World
unfolding erase_keys
erase w = erase_keys (close w)
