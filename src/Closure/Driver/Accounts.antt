-- ===== src/Closure/Driver/Accounts.antt =====
-- What the store keeps of each account, and that a valid request is one that the ticks can read.
use semp_ts.Common.{
  ℕ, ◌+◌, ◌*◌, String, ◌≡◌, refl, inl, inr, true, false, not, Option, none, some, str_eq, leb,
  IsMap, IsIndexed, All, values, Fallible, ok, throw, throw_if, throw_if-ok, then_parts,
  Option-cases,
}
use semp_ts.Closure.Record.{
  ClosureRecord, ClosureError, validate_closure_record, check_fields, finalization_at,
  is_finalizable, is_blank, text_of, is_unread, grace_of,
}
use semp_ts.Closure.Store.{ClosureStore, user_of}

-- A request of a user whose finalization has a time.
pub record IsClosable (date_parse : String → Option ℕ) (r : ClosureRecord) : Type 0 where
  pub is_request : str_eq r.step "request" ≡ true
  pub named : str_eq (user_of r) "" ≡ false
  pub at : ℕ
  pub at_lem : finalization_at date_parse r ≡ ok at

pub record IsGood (date_parse : String → Option ℕ) (s : ClosureStore) : Type 0 where
  pub pending_map : IsMap s.pending
  pub finalized_map : IsMap s.finalized
  pub indexed : IsIndexed user_of s.pending
  pub requests : All (IsClosable date_parse) (values s.pending)

-- The time at which a request is due.
abbrev pub time_of : Fallible ClosureError ℕ → ℕ
time_of (throw e) = 0
time_of (ok at) = at

abbrev pub due_at : (String → Option ℕ) → ClosureRecord → ℕ
due_at date_parse r = time_of (finalization_at date_parse r)

named-blank : (text : Option String) → is_blank text ≡ false → str_eq (text_of text) "" ≡ false
named-blank none h = cc
named-blank (some text) h = h

module _ (date_parse : String → Option ℕ) where
  read-finalization_at :
      (r : ClosureRecord)
      → is_unread (date_parse (text_of r.requested_at)) ≡ false
      → (at : ℕ) × (finalization_at date_parse r ≡ ok at)
  unfolding finalization_at
  read-finalization_at r h = elim (Option-cases (date_parse (text_of r.requested_at))) [
    | inl missing ↦ absurd (cc)
    | inr (ts, e) ↦ (ts + grace_of r.grace_period_seconds * 1000, rw e refl)
  ]

  pub valid-IsClosable :
      (r : ClosureRecord)
      → validate_closure_record date_parse false r ≡ ok tt
      → str_eq r.step "request" ≡ true
      → IsClosable date_parse r
  unfolding validate_closure_record check_fields
  valid-IsClosable r h step =
      let (fields, _) = then_parts (check_fields date_parse r) _ h in
      let (_, h1) = then_parts (throw_if (not (str_eq r.type "SEMP_ACCOUNT_CLOSURE")) _) _ fields in
      let (_, h2) = then_parts (throw_if _ _) _ h1 in
      let (_, h3) = then_parts (throw_if (is_blank r.version) _) _ h2 in
      let (a4, h4) = then_parts (throw_if (is_blank r.user_id) _) _ h3 in
      let (_, h5) = then_parts (throw_if (is_blank r.requested_at) _) _ h4 in
      let (a6, _) =
        then_parts (throw_if (is_unread (date_parse (text_of r.requested_at))) _) _ h5 in
      let (at, at_lem) = read-finalization_at r (throw_if-ok _ _ a6) in
      record {
        is_request = step;
        named = named-blank r.user_id (throw_if-ok _ _ a4);
        at = at;
        at_lem = at_lem;
      }

  pub due_at-finalizable :
      (r : ClosureRecord) (now : ℕ)
      → IsClosable date_parse r
      → is_finalizable date_parse r now ≡ ok (leb (due_at date_parse r) now)
  unfolding is_finalizable
  due_at-finalizable r now c = rw (c.is_request, c.at_lem) refl
