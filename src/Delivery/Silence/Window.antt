-- ===== src/Delivery/Silence/Window.antt =====
-- What the counter knows of a recipient: the run of silent outcomes since the last other one.
use text.Mathlib.TextEquality.{eq_iff}
use semp_ts.Common.{
  ℕ, ◌+◌, String, ◌≡◌, refl, sym, ap, ◌∙◌, ◌⊎◌, inl, inr, true, false, not, ◌&&◌, Option, none,
  some, List, [], ◌∷◌, leb, ltb, str_eq, if◌then◌else◌, lookup, insert, remove, IsMap,
  lookup-insert, lookup-remove, insert-IsMap, remove-IsMap, arith, Bool-cases, Option-cases, ◌≢◌,
}
use semp_ts.Delivery.Silence.{
  SilentLimits, SilentEntry, Counter, inc, reset, effective, count_of, Noted, note, note_all,
}

-- What one outcome makes of a recipient's run: none before the first silent outcome.
unfoldable pub run_on : String → Noted → Option SilentEntry → Option SilentEntry
run_on recipient n run =
    if not (str_eq n.recipient recipient) then run else if not n.is_silent then none else elim run [
      | none ↦ some (record { count = 1; first_seen_ms = n.at; last_seen_ms = n.at })
      | some e ↦ some (record e { count = e.count + 1; last_seen_ms = n.at })
    ]

unfoldable pub run_of : String → List Noted → Option SilentEntry → Option SilentEntry
run_of recipient [] run = run
run_of recipient (n ∷ ns) run = run_of recipient ns (run_on recipient n run)

-- What `inc` puts at a recipient's key.
abbrev pub one_more : ℕ → Option SilentEntry → SilentEntry
one_more now none = record { count = 1; first_seen_ms = now; last_seen_ms = now }
one_more now (some e) = record e { count = e.count + 1; last_seen_ms = now }

inc-insert :
    (recipient : String) (now : ℕ) (entries : Counter)
    → str_eq recipient "" ≡ false
    → (inc recipient now entries).0
      ≡ insert recipient (one_more now (lookup recipient entries)) entries
unfolding inc
inc-insert recipient now entries named = elim (Option-cases (lookup recipient entries)) [
  | inl absent ↦ ground (arith, named, absent)
  | inr (e, found) ↦ ground (arith, named, found)
]

inc_unnamed :
    (recipient : String) (now : ℕ) (entries : Counter)
    → str_eq recipient "" ≡ true
    → (inc recipient now entries).0 ≡ entries
unfolding inc
inc_unnamed recipient now entries e = ground (arith, e)

inc-IsMap :
    (recipient : String) (now : ℕ) (entries : Counter)
    → IsMap entries
    → IsMap (inc recipient now entries).0
inc-IsMap recipient now entries keyed = elim (Bool-cases (str_eq recipient "")) [
  | inl unnamed ↦ rw (inc_unnamed recipient now entries unnamed) keyed
  | inr named ↦
      rw (inc-insert recipient now entries named)
        (insert-IsMap recipient (one_more now (lookup recipient entries)) entries keyed)
]

note-IsMap : (n : Noted) (entries : Counter) → IsMap entries → IsMap (note n entries)
unfolding note reset
note-IsMap n entries keyed = elim (Bool-cases n.is_silent) [
  | inl silent ↦ rw silent (inc-IsMap n.recipient n.at entries keyed)
  | inr loud ↦ rw loud (remove-IsMap n.recipient entries keyed)
]

run_on_silent :
    (recipient : String) (n : Noted) (run : Option SilentEntry)
    → n.is_silent ≡ true
    → run_on recipient n run
      ≡ (if str_eq n.recipient recipient then some (one_more n.at run) else run)
unfolding run_on
run_on_silent recipient n none e = ground (arith, e)
run_on_silent recipient n (some run) e = ground (arith, e)

run_on_loud :
    (recipient : String) (n : Noted) (run : Option SilentEntry)
    → n.is_silent ≡ false
    → run_on recipient n run ≡ (if str_eq n.recipient recipient then none else run)
unfolding run_on
run_on_loud recipient n run e = ground (arith, e)

note_silent :
    (n : Noted) (entries : Counter)
    → n.is_silent ≡ true
    → note n entries ≡ (inc n.recipient n.at entries).0
unfolding note
note_silent n entries e = ground (arith, e)

note_loud :
    (n : Noted) (entries : Counter)
    → n.is_silent ≡ false
    → note n entries ≡ remove n.recipient entries
unfolding note reset
note_loud n entries e = ground (arith, e)

note-run_on :
    (recipient : String) (n : Noted) (entries : Counter)
    → recipient ≢ ""
    → IsMap entries
    → lookup recipient (note n entries) ≡ run_on recipient n (lookup recipient entries)
note-run_on recipient n entries h keyed = elim (Bool-cases n.is_silent) [
  | inr loud ↦
      ap (lookup recipient) (note_loud n entries loud)
      ∙ lookup-remove n.recipient recipient entries keyed
      ∙ sym (run_on_loud recipient n (lookup recipient entries) loud)
  | inl silent ↦ elim (Bool-cases (str_eq n.recipient "")) [
    | inl unnamed ↦
        let other : str_eq n.recipient recipient ≡ false = elsewhere unnamed in
        ap (lookup recipient)
          (note_silent n entries silent ∙ inc_unnamed n.recipient n.at entries unnamed)
        ∙ sym (run_on_silent recipient n (lookup recipient entries) silent ∙ ground (arith, other))
    | inr named ↦
        ap (lookup recipient)
          (note_silent n entries silent ∙ inc-insert n.recipient n.at entries named)
        ∙ lookup-insert n.recipient recipient (one_more n.at (lookup n.recipient entries)) entries
        ∙ same_run (Bool-cases (str_eq n.recipient recipient))
        ∙ sym (run_on_silent recipient n (lookup recipient entries) silent)
  ]
]
  where
    elsewhere : str_eq n.recipient "" ≡ true → str_eq n.recipient recipient ≡ false
    elsewhere unnamed = elim (Bool-cases (str_eq n.recipient recipient)) [
      | inr other ↦ other
      | inl same ↦
          absurd
            (h (sym ((eq_iff n.recipient recipient).0 same) ∙ (eq_iff n.recipient "").0 unnamed))
    ]

    same_run :
        (str_eq n.recipient recipient ≡ true) ⊎ (str_eq n.recipient recipient ≡ false)
        → (if str_eq n.recipient recipient
            then some (one_more n.at (lookup n.recipient entries))
            else lookup recipient entries)
          ≡ (if str_eq n.recipient recipient
              then some (one_more n.at (lookup recipient entries))
              else lookup recipient entries)
    same_run (inl same) =
        ap
          (λ r.
            if str_eq n.recipient recipient
            then some (one_more n.at (lookup r entries))
            else lookup recipient entries)
          ((eq_iff n.recipient recipient).0 same)
    same_run (inr other) = rw other refl

note_all-run_of :
    (recipient : String) (ns : List Noted) (entries : Counter)
    → recipient ≢ ""
    → IsMap entries
    → lookup recipient (note_all ns entries) ≡ run_of recipient ns (lookup recipient entries)
unfolding note_all run_of
note_all-run_of recipient [] entries h keyed = refl
note_all-run_of recipient (n ∷ ns) entries h keyed =
    note_all-run_of recipient ns (note n entries) h (note-IsMap n entries keyed)
    ∙ ap (run_of recipient ns) (note-run_on recipient n entries h keyed)

-- When a run tightens the deadline.
unfoldable pub tightened : SilentLimits → ℕ → Option SilentEntry → Option ℕ
tightened cfg now none = none
tightened cfg now (some e) =
    if leb cfg.threshold e.count && leb (e.first_seen_ms + cfg.observation_window_ms) now
    then some cfg.short_deadline_ms
    else none

-- After any outcomes noted by a counter that was empty, a recipient's deadline is the short one exactly
-- where the silent outcomes for it since its last other outcome reach the threshold, and the first of
-- them is at least the observation window ago; the count is theirs. Outcomes of other recipients do
-- not matter.
pub effective-run_of :
    (cfg : SilentLimits) (recipient : String) (ns : List Noted) (now : ℕ)
    → recipient ≢ ""
    → let run = run_of recipient ns none in
      (effective cfg recipient now (note_all ns []) ≡ tightened cfg now run)
      × (count_of recipient (note_all ns []) ≡ elim run [ none ↦ 0 | some e ↦ e.count ])
unfolding effective count_of
effective-run_of cfg recipient ns now h =
    let same = note_all-run_of recipient ns [] h tt in
    (ground (arith, same, tighten (run_of recipient ns none)), ground (arith, same))
  where
    tighten :
        (run : Option SilentEntry)
        → (elim run [
          | none ↦ none
          | some e ↦
              if ltb e.count cfg.threshold
              then none
              else if ltb now (e.first_seen_ms + cfg.observation_window_ms)
              then none
              else some cfg.short_deadline_ms
        ])
          ≡ tightened cfg now run
    tighten none = unfold tightened in refl
    tighten (some e) = unfold tightened in ground arith
