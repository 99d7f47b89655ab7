-- ===== src/Migration/Tests.antt =====
-- A lockout at a concrete local part.
use semp_ts.Common.{ℕ, ◌≤◌, ◌<◌, String, ◌≡◌, refl, none, some, [], ◌∷◌, ok, throw, ◌≢◌}
use semp_ts.Migration.Lockout.{
  LockoutReservation, Registry, already_locked_out, reserve, is_locked_out, prune_expired,
}
use semp_ts.Migration.Lockout.Term.{reserve-holds}

-- No change of case.
abbrev same : String → String
same text = text

abbrev moved : LockoutReservation
moved = record { localpart = "alice"; until = 100; record_id = "m-1" }

alice-reserved : reserve same "alice" 100 "m-1" [] ≡ ok (("alice", moved) ∷ [])
unfolding reserve
alice-reserved = refl

alice-named : ◌≢◌ {A = String} "alice" ""
alice-named e = cc

reserve-holds_example :
    ((now : ℕ)
      → now < 100
      → (is_locked_out same "alice" now (("alice", moved) ∷ [])
          ≡ (("alice", moved) ∷ [], some moved))
        × ((is_locked_out same "alice" now (prune_expired now (("alice", moved) ∷ [])).0).1
            ≡ some moved)
        × ((u : ℕ) (id : String)
            → reserve same "alice" u id (("alice", moved) ∷ []) ≡ throw (already_locked_out moved)))
    × ((now : ℕ)
        → 100 ≤ now
        → ((is_locked_out same "alice" now (("alice", moved) ∷ [])).1 ≡ none)
          × ((u : ℕ) (id : String)
              → (next : Registry) × (reserve same "alice" u id
                    (is_locked_out same "alice" now (("alice", moved) ∷ [])).0
                  ≡ ok next)))
reserve-holds_example =
    reserve-holds same "alice" "alice" 100 "m-1" [] (("alice", moved) ∷ []) alice-reserved tt refl
      alice-named
