-- ===== src/Delivery/Silence.antt =====
-- src/delivery/persistent_silent.ts: the counter of silent outcomes by recipient. A configured value
-- that is 0 or unset falls back to its default.
pub mod Window
use semp_ts.Common.{
  ℕ, ◌+◌, ◌-◌, ◌*◌, String, Bool, true, false, not, Option, none, some, List, [], ◌∷◌, leb, ltb,
  str_eq, ◌==◌, if◌then◌else◌, lookup, insert, remove, keep_entries, count_dropped,
}

pub record PersistentSilentConfig : Type 0 where
  pub threshold : Option ℕ
  pub observation_window_ms : Option ℕ
  pub short_deadline_ms : Option ℕ
  pub idle_expiry_ms : Option ℕ

-- The configuration after the constructor.
pub record SilentLimits : Type 0 where
  pub threshold : ℕ
  pub observation_window_ms : ℕ
  pub short_deadline_ms : ℕ
  pub idle_expiry_ms : ℕ

pub record SilentEntry : Type 0 where
  pub count : ℕ
  pub first_seen_ms : ℕ
  pub last_seen_ms : ℕ

-- PersistentSilentCounter's map.
abbrev pub Counter : Type 0
Counter = List (String × SilentEntry)

abbrev pub positive_or : Option ℕ → ℕ → ℕ
positive_or none fallback = fallback
positive_or (some n) fallback = if n == 0 then fallback else n

unfoldable pub new_limits : PersistentSilentConfig → SilentLimits
new_limits cfg = record {
  threshold = positive_or cfg.threshold 5;
  observation_window_ms = positive_or cfg.observation_window_ms (24 * 60 * 60 * 1000);
  short_deadline_ms = positive_or cfg.short_deadline_ms (4 * 60 * 60 * 1000);
  idle_expiry_ms = positive_or cfg.idle_expiry_ms (30 * 24 * 60 * 60 * 1000);
}

unfoldable pub inc : String → ℕ → Counter → Counter × ℕ
inc recipient now entries =
    if str_eq recipient "" then (entries, 0) else elim (lookup recipient entries) [
      | none ↦ (
        insert recipient (record { count = 1; first_seen_ms = now; last_seen_ms = now }) entries,
        1,
      )
      | some e ↦ (
        insert recipient (record e { count = e.count + 1; last_seen_ms = now }) entries,
        e.count + 1,
      )
    ]

unfoldable pub reset : String → Counter → Counter
reset recipient entries = remove recipient entries

-- `now - firstSeenMs < window`, as a sum so that a clock that went back counts as inside the window.
unfoldable pub effective : SilentLimits → String → ℕ → Counter → Option ℕ
effective cfg recipient now entries = elim (lookup recipient entries) [
  | none ↦ none
  | some e ↦
      if ltb e.count cfg.threshold
      then none
      else if ltb now (e.first_seen_ms + cfg.observation_window_ms)
      then none
      else some cfg.short_deadline_ms
]

unfoldable pub count_of : String → Counter → ℕ
count_of recipient entries = elim (lookup recipient entries) [ none ↦ 0 | some e ↦ e.count ]

-- `t - lastSeenMs >= idleExpiryMs`
unfoldable pub is_idle : SilentLimits → ℕ → SilentEntry → Bool
is_idle cfg now e = leb (e.last_seen_ms + cfg.idle_expiry_ms) now

unfoldable pub prune_expired : SilentLimits → ℕ → Counter → Counter × ℕ
prune_expired cfg now entries = (
  keep_entries (λ e. not (is_idle cfg now e)) entries,
  count_dropped (λ e. not (is_idle cfg now e)) entries,
)

-- The outcomes that a sender has noted for its recipients, oldest first: silent ones call `inc`, the
-- others `reset`.
pub record Noted : Type 0 where
  pub recipient : String
  pub is_silent : Bool
  pub at : ℕ

unfoldable pub note : Noted → Counter → Counter
note n entries = if n.is_silent then (inc n.recipient n.at entries).0 else reset n.recipient entries

unfoldable pub note_all : List Noted → Counter → Counter
note_all [] entries = entries
note_all (n ∷ ns) entries = note_all ns (note n entries)
