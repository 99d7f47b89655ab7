-- ===== src/Migration/Lockout/Term.antt =====
-- How long a reservation holds.
use text.Mathlib.TextEquality.{eq_iff}
use semp_ts.Common.{
  ℕ, ◌≤◌, ◌<◌, String, ◌≡◌, sym, ap, ◌∙◌, inl, inr, false, not, Option, none, some, str_eq, lookup,
  insert, remove, IsMap, lookup-insert, lookup-remove, insert-IsMap, lookup-keep_entries, ok, throw,
  arith, Bool-cases, Option-cases, ◌≢◌, lt→leb, le→leb, subst,
}
use semp_ts.Migration.Lockout.{
  LockoutReservation, Registry, already_locked_out, has_ended, reserve, is_locked_out,
  prune_expired,
}

module _ (lower : String → String) where
  reserve-lookup :
      (localpart : String) (until : ℕ) (record_id : String) (entries entries' : Registry)
      → reserve lower localpart until record_id entries ≡ ok entries'
      → entries'
        ≡ insert
            (lower localpart)
            (record { localpart = localpart; until = until; record_id = record_id })
            entries
  unfolding reserve
  reserve-lookup localpart until record_id entries entries' h =
      elim (Bool-cases (str_eq localpart "")) [
        | inl empty ↦ absurd (ground (arith, h, empty))
        | inr filled ↦ elim (Option-cases (lookup (lower localpart) entries)) [
          | inr (existing, found) ↦ absurd (ground (arith, h, filled, found))
          | inl free ↦ ground (arith, h, filled, free)
        ]
      ]

  -- A registry that holds a reservation at a key.
  held_before :
      (other : String) (r : LockoutReservation) (now : ℕ) (entries : Registry)
      → lookup (lower other) entries ≡ some r
      → now < r.until
      → is_locked_out lower other now entries ≡ (entries, some r)
  unfolding is_locked_out
  held_before other r now entries at early = ground (arith, at, lt→leb r.until now early)

  held_after_prune :
      (other : String) (r : LockoutReservation) (now : ℕ) (entries : Registry)
      → IsMap entries
      → lookup (lower other) entries ≡ some r
      → now < r.until
      → lookup (lower other) (prune_expired now entries).0 ≡ some r
  unfolding prune_expired has_ended
  held_after_prune other r now entries keyed at early =
      lookup-keep_entries (λ r. not (has_ended now r)) (lower other) entries keyed
      ∙ ground (arith, at, lt→leb r.until now early)

  held_refuses :
      (other : String) (r : LockoutReservation) (entries : Registry) (u : ℕ) (id : String)
      → str_eq other "" ≡ false
      → lookup (lower other) entries ≡ some r
      → reserve lower other u id entries ≡ throw (already_locked_out r)
  unfolding reserve
  held_refuses other r entries u id named at = ground (arith, named, at)

  ended :
      (other : String) (r : LockoutReservation) (now : ℕ) (entries : Registry)
      → lookup (lower other) entries ≡ some r
      → r.until ≤ now
      → is_locked_out lower other now entries ≡ (remove (lower other) entries, none)
  unfolding is_locked_out
  ended other r now entries at late = ground (arith, at, le→leb r.until now late)

  free_accepts :
      (other : String) (entries : Registry) (u : ℕ) (id : String)
      → str_eq other "" ≡ false
      → lookup (lower other) entries ≡ none
      → (next : Registry) × (reserve lower other u id entries ≡ ok next)
  unfolding reserve
  free_accepts other entries u id named free = (
    insert (lower other) (record { localpart = other; until = u; record_id = id }) entries,
    ground (arith, named, free),
  )

  not_empty : (other : String) → other ≢ "" → str_eq other "" ≡ false
  not_empty other h = elim (Bool-cases (str_eq other "")) [
    | inl e ↦ absurd (h ((eq_iff other "").0 e))
    | inr e ↦ e
  ]

  -- A reservation that has been made holds until its end, however the local part is written in upper
  -- and lower case: before the end it is reported, even after a pruning, and another reservation is
  -- refused with it; from the end on it is not reported, and then another reservation is accepted.
  pub reserve-holds :
      (localpart other : String) (until : ℕ) (record_id : String) (entries entries' : Registry)
      → reserve lower localpart until record_id entries ≡ ok entries'
      → IsMap entries
      → lower other ≡ lower localpart
      → other ≢ ""
      → let r : LockoutReservation = record {
        localpart = localpart;
        until = until;
        record_id = record_id;
      } in
        ((now : ℕ)
          → now < until
          → (is_locked_out lower other now entries' ≡ (entries', some r))
            × ((is_locked_out lower other now (prune_expired now entries').0).1 ≡ some r)
            × ((u : ℕ) (id : String)
                → reserve lower other u id entries' ≡ throw (already_locked_out r)))
        × ((now : ℕ)
            → until ≤ now
            → ((is_locked_out lower other now entries').1 ≡ none)
              × ((u : ℕ) (id : String)
                  → (next : Registry) × (reserve lower other u id
                        (is_locked_out lower other now entries').0
                      ≡ ok next)))
  reserve-holds localpart other until record_id entries entries' made keyed same named = (
    λ now early. (
      held_before other r now entries' at early,
      ap (λ p. p.1)
          (held_before other r now (prune_expired now entries').0
            (held_after_prune other r now entries' keyed' at early) early),
      λ u id. held_refuses other r entries' u id (not_empty other named) at,
    ),
    λ now late. (
      ap (λ p. p.1) (ended other r now entries' at late),
      λ u id.
          free_accepts other (is_locked_out lower other now entries').0 u id (not_empty other named)
            (ap (λ (p : Registry × Option LockoutReservation). lookup (lower other) p.0)
                (ended other r now entries' at late)
              ∙ lookup-remove (lower other) (lower other) entries' keyed'
              ∙ ground (arith, eq_iff (lower other) (lower other))),
    ),
  )
    where
      r : LockoutReservation
      r = record { localpart = localpart; until = until; record_id = record_id }

      made_of : entries' ≡ insert (lower localpart) r entries
      made_of = reserve-lookup localpart until record_id entries entries' made

      keyed' : IsMap entries'
      keyed' = subst IsMap (sym made_of) (insert-IsMap (lower localpart) r entries keyed)

      at : lookup (lower other) entries' ≡ some r
      at =
          ap (lookup (lower other)) made_of
          ∙ lookup-insert (lower localpart) (lower other) r entries
          ∙ ground (arith, same, eq_iff (lower localpart) (lower other))
