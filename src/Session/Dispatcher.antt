-- ===== src/Session/Dispatcher.antt =====
-- src/session/dispatcher.ts: the loop that hands each message of a session to its handler. The
-- messages are the list of what `receive` gives, a handler is the error that it throws on a frame, if
-- any, and JSON.parse is a parameter. The result is the calls of handlers and of the error hooks.
pub mod Order
use semp_ts.Common.{
  ℕ, String, Bool, true, false, Option, none, some, List, [], ◌∷◌, ◌++◌, str_eq, ◌||◌,
  if◌then◌else◌,
}

pub data Received : Type 0 where
  failed : String → Received
  end_of_stream : Received
  frame : List ℕ → Received

-- What JSON.parse makes of a frame: an error, null, or another value with its `type` where that is a
-- text.
pub data Parsed : Type 0 where
  malformed : String → Parsed
  null_value : Parsed
  value : Option String → Parsed

abbrev pub Handler : Type 0
Handler = Option (List ℕ → Option String)

pub record DispatchHandlers : Type 0 where
  pub on_rekey : Handler
  pub on_envelope : Handler
  pub on_keys : Handler
  pub on_fetch : Handler
  pub on_discovery : Handler
  pub on_delivery : Handler
  pub on_unknown : Option (String → List ℕ → Option String)

pub data Kind : Type 0 where
  rekey envelope keys fetch discovery delivery : Kind
  unknown : String → Kind

pub record Call : Type 0 where
  pub kind : Kind
  pub bytes : List ℕ

-- The loop's end: at the end of the stream, after a call of `onFatal`, or by an error of its own.
pub data Exit : Type 0 where
  ended crashed : Exit
  fatal : String → Exit

-- `exit` is none while the loop waits for more. An error of a handler comes with the frame's type.
pub record Dispatched : Type 0 where
  pub calls : List Call
  pub errors : List (String × String)
  pub exit : Option Exit

-- The handler that the switch finds for a type, and the kind of its call.
unfoldable pub route : DispatchHandlers → String → Kind × Handler
route handlers type =
    if str_eq type "SEMP_REKEY"
    then (rekey, handlers.on_rekey)
    else if str_eq type "SEMP_ENVELOPE"
    then (envelope, handlers.on_envelope)
    else if str_eq type "SEMP_KEYS"
    then (keys, handlers.on_keys)
    else if str_eq type "SEMP_FETCH"
    then (fetch, handlers.on_fetch)
    else if str_eq type "SEMP_DISCOVERY"
    then (discovery, handlers.on_discovery)
    else if str_eq type "SEMP_DELIVERY_ACK" || str_eq type "SEMP_DELIVERY_RECEIPT"
    then (delivery, handlers.on_delivery)
    else (unknown type, none)

-- The call that a frame makes, if any, and the error that it throws, if any.
unfoldable pub dispatch_one : String → List ℕ → DispatchHandlers → List Call × Option String
unfolding route
dispatch_one type bytes handlers = elim (route handlers type).1 [
  | some handler ↦ (record { kind = (route handlers type).0; bytes = bytes } ∷ [], handler bytes)
  | none ↦ elim handlers.on_unknown [
    | some handler ↦ (record { kind = unknown type; bytes = bytes } ∷ [], handler type bytes)
    | none ↦ ([], none)
  ]
]

abbrev pub type_or_empty : Option String → String
type_or_empty none = ""
type_or_empty (some type) = type

abbrev pub stop : Exit → Dispatched
stop exit = record { calls = []; errors = []; exit = some exit }

-- A round's calls and errors before those of the rest.
unfoldable pub before : String → List Call × Option String → Dispatched → Dispatched
before type (calls, error) rest = record {
  calls = calls ++ rest.calls;
  errors = elim error [ none ↦ rest.errors | some e ↦ (e, type) ∷ rest.errors ];
  exit = rest.exit;
}

module _ (parse : List ℕ → Parsed) (handlers : DispatchHandlers) where
  -- One frame, and what the loop makes of the rest.
  unfoldable pub dispatch_frame : List ℕ → Parsed → Dispatched → Dispatched
  unfolding before
  dispatch_frame bytes (malformed e) rest = stop (fatal e)
  dispatch_frame bytes null_value rest = stop crashed
  dispatch_frame bytes (value type) rest =
      before (type_or_empty type) (dispatch_one (type_or_empty type) bytes handlers) rest

  unfoldable pub run_dispatcher : List Received → Dispatched
  run_dispatcher [] = record { calls = []; errors = []; exit = none }
  run_dispatcher (failed e ∷ more) = stop (fatal e)
  run_dispatcher (end_of_stream ∷ more) = stop ended
  run_dispatcher (frame bytes ∷ more) = dispatch_frame bytes (parse bytes) (run_dispatcher more)
