-- ===== src/Session/Dispatcher/Order.antt =====
-- The loop is a map over the frames that it can read.
use semp_ts.Common.{
  ℕ, String, ◌≡◌, refl, sym, ap, ◌∙◌, Option, none, some, List, [], ◌∷◌, ◌++◌, All,
}
use semp_ts.Session.Dispatcher.{
  Received, frame, Parsed, value, DispatchHandlers, Call, Dispatched, dispatch_one, type_or_empty,
  before, dispatch_frame, run_dispatcher,
}

module _ (parse : List ℕ → Parsed) (handlers : DispatchHandlers) where
  -- Frames that are JSON and not null, with their types.
  abbrev pub Read : List (List ℕ × Option String) → Type 0
  Read = All (λ m. parse m.0 ≡ value m.1)

  abbrev pub frames : List (List ℕ × Option String) → List Received → List Received
  frames [] more = more
  frames (m ∷ ms) more = frame m.0 ∷ frames ms more

  -- The calls and the errors of the frames alone.
  unfoldable pub dispatch_each : List (List ℕ × Option String) → List Call × List (String × String)
  dispatch_each [] = ([], [])
  dispatch_each (m ∷ ms) =
      let (calls, error) = dispatch_one (type_or_empty m.1) m.0 handlers in
      let (later, errors) = dispatch_each ms in
      (calls ++ later, elim error [ none ↦ errors | some e ↦ (e, type_or_empty m.1) ∷ errors ])

  append_assoc : (xs ys zs : List Call) → (xs ++ ys) ++ zs ≡ xs ++ (ys ++ zs)
  append_assoc [] ys zs = refl
  append_assoc (x ∷ xs) ys zs = ap (λ t. x ∷ t) (append_assoc xs ys zs)

  -- The result after the calls and errors of earlier frames.
  abbrev pub after : List Call × List (String × String) → Dispatched → Dispatched
  after (calls, errors) rest = record {
    calls = calls ++ rest.calls;
    errors = errors ++ rest.errors;
    exit = rest.exit;
  }

  before-after :
      (type : String) (one : List Call × Option String) (each : List Call × List (String × String))
      (rest : Dispatched)
      → before type one (after each rest)
        ≡ after (one.0 ++ each.0, elim one.1 [ none ↦ each.1 | some e ↦ (e, type) ∷ each.1 ]) rest
  unfolding before
  before-after type (calls, none) (later, errors) rest =
      ap (λ (t : List Call). record { calls = t; errors = errors ++ rest.errors; exit = rest.exit })
        (sym (append_assoc calls later rest.calls))
  before-after type (calls, some e) (later, errors) rest =
      ap
        (λ (t : List Call). record {
          calls = t;
          errors = (e, type) ∷ errors ++ rest.errors;
          exit = rest.exit;
        })
        (sym (append_assoc calls later rest.calls))

  -- Over frames that are JSON and not null, whatever follows them, the loop makes each frame's call in
  -- order, reports each handler's error in order, and goes on: its result is theirs and then that of
  -- what follows.
  pub run_dispatcher-frames :
      (ms : List (List ℕ × Option String)) (more : List Received)
      → Read ms
      → run_dispatcher parse handlers (frames ms more)
        ≡ after (dispatch_each ms) (run_dispatcher parse handlers more)
  unfolding run_dispatcher dispatch_each
  run_dispatcher-frames [] more read = refl
  run_dispatcher-frames (m ∷ ms) more read =
      ap (λ p. dispatch_frame parse handlers m.0 p (run_dispatcher parse handlers (frames ms more)))
        read.0
      ∙ ap (λ rest. dispatch_frame parse handlers m.0 (value m.1) rest)
          (run_dispatcher-frames ms more read.1)
      ∙ (unfold dispatch_frame in
          before-after (type_or_empty m.1) (dispatch_one (type_or_empty m.1) m.0 handlers)
            (dispatch_each ms) (run_dispatcher parse handlers more))
