-- ===== src/Delivery/Blocklist/Applying.antt =====
-- When an entry of a block list applies to a sender, and how high it stands, without the code's ranks.
use text.Mathlib.TextEquality.{eq_iff}
use semp_ts.Common.{
  ℕ, ◌<◌, String, ◌≡◌, ◌≢◌, refl, sym, ◌∙◌, Bool, true, false, Option, none, some, str_eq, not,
  ◌&&◌, leb, arith, Bool-cases, inl, inr,
}
use semp_ts.Delivery.Blocklist.{
  Entity, Scope, BlockEntry, BlockListSender, or_empty, is_expired, scope_applies, is_named,
  entity_rank, rank,
}

-- User over server over domain.
abbrev pub level : Entity → ℕ
level (Entity.user address) = 3
level (Entity.server hostname) = 2
level (Entity.domain name) = 1
level Entity.other = 0

module _ (date_parse : String → Option ℕ) (lower : String → String) (sender : BlockListSender)
    (now : ℕ) where
  -- An expiry that can be read is still to come.
  abbrev pub IsCurrent : Option String → Type 0
  IsCurrent none = Unit
  IsCurrent (some text) = (t : ℕ) → text ≢ "" → date_parse text ≡ some t → now < t

  abbrev pub Covers : Scope → Type 0
  Covers Scope.all = Unit
  Covers Scope.direct = sender.is_group ≡ false
  Covers Scope.group = sender.is_group ≡ true
  Covers Scope.missing = Unit
  Covers Scope.unknown = ⊥

  -- The sender has a name of this kind, and it is the listed one but for the case.
  abbrev pub IsOwn : Option String → Option String → Type 0
  IsOwn own listed = (lower (or_empty own) ≢ "") × (lower (or_empty listed) ≡ lower (or_empty own))

  abbrev pub Names : Entity → Type 0
  Names (Entity.user address) = IsOwn sender.address address
  Names (Entity.server hostname) = IsOwn sender.server hostname
  Names (Entity.domain name) = IsOwn sender.domain name
  Names Entity.other = ⊥

  pub record Applies (e : BlockEntry) : Type 0 where
    pub current : IsCurrent e.expires_at
    pub covers : Covers e.scope
    pub names : Names e.entity

  true_not_false : true ≡ false → ⊥
  true_not_false h = cc

  some_not_none : {t : ℕ} → ◌≡◌ {A = Option ℕ} none (some t) → ⊥
  some_not_none h = cc

  some_injective : {a b : ℕ} → ◌≡◌ {A = Option ℕ} (some a) (some b) → a ≡ b
  some_injective h = cc

  named-str_eq : (text : String) → text ≢ "" → str_eq text "" ≡ false
  named-str_eq text h = elim (Bool-cases (str_eq text "")) [
    | inl e ↦ absurd (h ((eq_iff text "").0 e))
    | inr e ↦ e
  ]

  str_eq-named : (text : String) → str_eq text "" ≡ false → text ≢ ""
  str_eq-named text h e = true_not_false (sym ((eq_iff text "").1 e) ∙ h)

  -- The expiry of a text, as the code computes it.
  abbrev passed : Option ℕ → Bool
  passed none = false
  passed (some t) = leb t now

  passed-current : (d : Option ℕ) (t : ℕ) → d ≡ some t → passed d ≡ false → now < t
  passed-current none t e h = absurd (some_not_none e)
  passed-current (some x) t e h = let same : x ≡ t = some_injective e in ground (arith, h, same)

  current-passed : (d : Option ℕ) → ((t : ℕ) → d ≡ some t → now < t) → passed d ≡ false
  current-passed none h = refl
  current-passed (some x) h = let lt = h x refl in ground (arith, lt)

  abbrev expired_by : Option String → Bool
  expired_by none = false
  expired_by (some text) = not (str_eq text "") && passed (date_parse text)

  is_expired-expired_by :
      (e : BlockEntry) → is_expired date_parse lower now e ≡ expired_by e.expires_at
  unfolding is_expired
  is_expired-expired_by e = go e.expires_at
    where
      inner : (d : Option ℕ) → (elim d [ none ↦ false | some t ↦ leb t now ]) ≡ passed d
      inner none = refl
      inner (some t) = refl

      go :
          (o : Option String)
          → (elim o [
            | none ↦ false
            | some text ↦
                not (str_eq text "") && elim (date_parse text) [ none ↦ false | some t ↦ leb t now ]
          ])
            ≡ expired_by o
      go none = refl
      go (some text) = rw (inner (date_parse text)) refl

  expired_by-IsCurrent : (o : Option String) → expired_by o ≡ false → IsCurrent o
  expired_by-IsCurrent none h = tt
  expired_by-IsCurrent (some text) h = λ t named e.
      passed-current (date_parse text) t e
        (let full = named-str_eq text named in ground (arith, h, full))

  IsCurrent-expired_by : (o : Option String) → IsCurrent o → expired_by o ≡ false
  IsCurrent-expired_by none h = refl
  IsCurrent-expired_by (some text) h = elim (Bool-cases (str_eq text "")) [
    | inl e ↦ rw e refl
    | inr e ↦ rw e (current-passed (date_parse text) (λ t. h t (str_eq-named text e)))
  ]

  scope_applies-Covers : (s : Scope) → scope_applies s sender.is_group ≡ true → Covers s
  unfolding scope_applies
  scope_applies-Covers Scope.all h = tt
  scope_applies-Covers Scope.direct h = ground (arith, h)
  scope_applies-Covers Scope.group h = h
  scope_applies-Covers Scope.missing h = tt
  scope_applies-Covers Scope.unknown h = cc

  Covers-scope_applies : (s : Scope) → Covers s → scope_applies s sender.is_group ≡ true
  unfolding scope_applies
  Covers-scope_applies Scope.all h = refl
  Covers-scope_applies Scope.direct h = ground (arith, h)
  Covers-scope_applies Scope.group h = h
  Covers-scope_applies Scope.missing h = refl
  Covers-scope_applies Scope.unknown h = absurd h

  is_named-IsOwn :
      (own listed : Option String) → is_named date_parse lower own listed ≡ true → IsOwn own listed
  unfolding is_named
  is_named-IsOwn own listed h =
      let empty : str_eq (lower (or_empty own)) "" ≡ false = ground (arith, h) in
      let same : str_eq (lower (or_empty listed)) (lower (or_empty own)) ≡ true =
        ground (arith, h) in
      (
        str_eq-named (lower (or_empty own)) empty,
        (eq_iff (lower (or_empty listed)) (lower (or_empty own))).0 same,
      )

  IsOwn-is_named :
      (own listed : Option String) → IsOwn own listed → is_named date_parse lower own listed ≡ true
  unfolding is_named
  IsOwn-is_named own listed (named, same) =
      let empty = named-str_eq (lower (or_empty own)) named in
      let equal = (eq_iff (lower (or_empty listed)) (lower (or_empty own))).1 same in
      ground (arith, empty, equal)

  entity_rank-Names : (x : Entity) → 0 < entity_rank date_parse lower sender x → Names x
  unfolding entity_rank
  entity_rank-Names (Entity.user a) h = is_named-IsOwn sender.address a (ground (arith, h))
  entity_rank-Names (Entity.server a) h = is_named-IsOwn sender.server a (ground (arith, h))
  entity_rank-Names (Entity.domain a) h = is_named-IsOwn sender.domain a (ground (arith, h))
  entity_rank-Names Entity.other h = omega (arith, h)

  Names-entity_rank :
      (x : Entity) → Names x → (entity_rank date_parse lower sender x ≡ level x) × (0 < level x)
  unfolding entity_rank
  Names-entity_rank (Entity.user a) h =
      let named = IsOwn-is_named sender.address a h in (rw named refl, omega arith)
  Names-entity_rank (Entity.server a) h =
      let named = IsOwn-is_named sender.server a h in (rw named refl, omega arith)
  Names-entity_rank (Entity.domain a) h =
      let named = IsOwn-is_named sender.domain a h in (rw named refl, omega arith)
  Names-entity_rank Entity.other h = absurd h

  -- An entry with a rank applies.
  pub Applies-rank : (e : BlockEntry) → 0 < rank date_parse lower sender now e → Applies e
  unfolding rank
  Applies-rank e h =
      let current : is_expired date_parse lower now e ≡ false = ground (arith, h) in
      let covers : scope_applies e.scope sender.is_group ≡ true = ground (arith, h) in
      let named : 0 < entity_rank date_parse lower sender e.entity = ground (arith, h) in
      record {
        current = expired_by-IsCurrent e.expires_at (sym (is_expired-expired_by e) ∙ current);
        covers = scope_applies-Covers e.scope covers;
        names = entity_rank-Names e.entity named;
      }

  -- The rank of an entry that applies is its level.
  pub rank-Applies :
      (e : BlockEntry) → Applies e → rank date_parse lower sender now e ≡ level e.entity
  unfolding rank
  rank-Applies e a =
      let current = is_expired-expired_by e ∙ IsCurrent-expired_by e.expires_at a.current in
      rw (current, Covers-scope_applies e.scope a.covers) (Names-entity_rank e.entity a.names).0

  pub level-positive : (e : BlockEntry) → Applies e → 0 < level e.entity
  level-positive e a = (Names-entity_rank e.entity a.names).1
