-- ===== src/Session/Tests.antt =====
-- A session and a dispatcher at concrete inputs.
use semp_ts.Common.{
  ℕ, ◌≡◌, refl, String, true, false, Option, none, some, List, [], ◌∷◌, ◌==◌, if◌then◌else◌,
  Fallible, ok, throw,
}
use semp_ts.Session.Live.{
  blank, SessionKeys, World, keys_of, send, receive, apply_rekey, erase, is_expired, keys_erased,
  closed, rekey_after_erase, new_session,
}
use semp_ts.Session.Live.Keys.{holds, erase-refuses, apply_rekey-swaps}
use semp_ts.Session.Dispatcher.{
  end_of_stream, Parsed, value, null_value, DispatchHandlers, run_dispatcher,
}
use semp_ts.Session.Dispatcher.Order.{frames, dispatch_each, after, run_dispatcher-frames}

abbrev first_keys : SessionKeys
first_keys = record {
  enc_c2s = 0;
  enc_s2c = 1;
  mac_c2s = 2;
  mac_s2c = 3;
  env_mac = 4;
  resumption = none;
}

abbrev second_keys : SessionKeys
second_keys = record {
  enc_c2s = 10;
  enc_s2c = 11;
  mac_c2s = 12;
  mac_s2c = 13;
  env_mac = 14;
  resumption = some 15;
}

abbrev live : World
live = new_session "s-1" 60 1000 first_keys (λ b. 7 ∷ 8 ∷ [])

live-keys : live.session.keys ≡ some first_keys
unfolding new_session
live-keys = refl

live-open : live.session.is_closed ≡ false
unfolding new_session
live-open = refl

erase-refuses_example :
    let w' = erase live in
    ((keys_of w'.session ≡ throw keys_erased)
      × ((message : List ℕ) (failure : Option String) → (send message failure w').1 ≡ throw closed)
      × ((answer : Fallible String (Option (List ℕ))) → receive answer w' ≡ throw closed)
      × ((id : String) (new : SessionKeys) → apply_rekey id new w' ≡ throw rekey_after_erase))
    × ((j : ℕ) → w'.heap j ≡ (if holds first_keys j then blank (live.heap j) else live.heap j))
    × (erase w' ≡ w')
erase-refuses_example = erase-refuses live first_keys live-keys

apply_rekey-swaps_example :
    (w' : World) × (apply_rekey "s-2" second_keys live ≡ ok w')
    × (keys_of w'.session ≡ ok second_keys)
    × (w'.session.session_id ≡ "s-2")
    × ((now : ℕ) → is_expired now w'.session ≡ is_expired now live.session)
    × ((j : ℕ) → holds first_keys j ≡ true → w'.heap j ≡ blank (live.heap j))
    × ((j : ℕ) → holds first_keys j ≡ false → w'.heap j ≡ live.heap j)
apply_rekey-swaps_example = apply_rekey-swaps "s-2" second_keys first_keys live live-keys live-open

-- Frame 1 is an envelope, frame 2 a value without a type, and all else is null.
abbrev parse : List ℕ → Parsed
parse [] = null_value
parse (b ∷ bytes) =
    if b == 1 then value (some "SEMP_ENVELOPE") else if b == 2 then value none else null_value

abbrev handlers : DispatchHandlers
handlers = record {
  on_rekey = none;
  on_envelope = some (λ bytes. some "no such user");
  on_keys = none;
  on_fetch = none;
  on_discovery = none;
  on_delivery = none;
  on_unknown = some (λ type bytes. none);
}

abbrev messages : List (List ℕ × Option String)
messages = (1 ∷ [], some "SEMP_ENVELOPE") ∷ (2 ∷ [], none) ∷ []

run_dispatcher-frames_example :
    run_dispatcher parse handlers (frames parse handlers messages (end_of_stream ∷ []))
    ≡ after parse handlers
        (dispatch_each parse handlers messages)
        (run_dispatcher parse handlers (end_of_stream ∷ []))
run_dispatcher-frames_example =
    run_dispatcher-frames parse handlers messages (end_of_stream ∷ []) (refl, (refl, tt))
