-- ===== src/Delivery/Staged/Tick.antt =====
-- What a tick makes of one held envelope, whatever else the runner holds.
use text.Mathlib.TextEquality.{eq_iff}
use semp_ts.Common.{
  ℕ, String, ◌≡◌, refl, ap, ◌∙◌, inl, inr, Bool, true, false, Option, none, some, List, [], ◌∷◌,
  str_eq, if◌then◌else◌, lookup, IsMap, Bool-cases, find_by, IsUnique, sort_by, find_by-sort_by,
  subst,
}
use semp_ts.Delivery.Disposition.{
  StagedHeld, StagedHeldStage, StageOutcome, suppress, advance, is_stage_complete,
  aggregate_dispositions,
}
use semp_ts.Delivery.Staged.{Held}
use semp_ts.Delivery.Staged.Rounds.{
  Pending, tick_held, tick_map, tick, keep_held, keep_pending, id_of, id_before, tick_stages,
  end_stage, next_stage,
}

-- What stays of an envelope, if it is held at all.
abbrev pub left_of : ℕ → ℕ → String → Option StagedHeld → Option StagedHeld
left_of timeout now id none = none
left_of timeout now id (some rec) = (tick_held timeout now id rec).0

-- The hook that is run for an envelope.
abbrev pub hook_of : ℕ → ℕ → String → Option StagedHeld → Option Pending
hook_of timeout now id none = none
hook_of timeout now id (some rec) = (tick_held timeout now id rec).1

abbrev or_else {ℓ} : {A : Type ℓ} → Option A → Option A → Option A
or_else none other = other
or_else (some a) other = some a

or_else-none {ℓ} : {A : Type ℓ} (o : Option A) → or_else o none ≡ o
or_else-none none = refl
or_else-none (some a) = refl

-- The hook of a round is for the round's own envelope.
abbrev IsFor : String → Option Pending → Type 0
IsFor id none = Unit
IsFor id (some p) = id_of p ≡ id

module _ (timeout now : ℕ) where
  next_stage-IsFor :
      (id : String) (rec : StagedHeld) (stage : ℕ) (rest : List StagedHeldStage)
      → IsFor id (next_stage timeout now id rec stage rest).1
  next_stage-IsFor id rec stage [] = refl
  next_stage-IsFor id rec stage (next ∷ rest) = refl

  end_stage-IsFor :
      (id : String) (rec : StagedHeld) (current : StagedHeldStage) (rest : List StagedHeldStage)
      (outcome : StageOutcome)
      → IsFor id (end_stage timeout now id rec current rest outcome).1
  end_stage-IsFor id rec current rest suppress = refl
  end_stage-IsFor id rec current rest advance = next_stage-IsFor id rec current.stage rest

  tick_stages-IsFor :
      (id : String) (rec : StagedHeld) (stages : List StagedHeldStage)
      → IsFor id (tick_stages timeout now id rec stages).1
  tick_stages-IsFor id rec [] = tt
  tick_stages-IsFor id rec (current ∷ rest) =
      elim (Bool-cases (is_stage_complete current now rec.deadline)) [
        | inl e ↦
            rw e (end_stage-IsFor id rec current rest (aggregate_dispositions current.dispositions))
        | inr e ↦ rw e tt
      ]

  tick_held-IsFor : (id : String) (rec : StagedHeld) → IsFor id (tick_held timeout now id rec).1
  unfolding tick_held
  tick_held-IsFor id rec = tick_stages-IsFor id rec rec.stages

  lookup-keep_held :
      (id k : String) (kept : Option StagedHeld) (s : Held)
      → lookup k (keep_held id kept s)
        ≡ (if str_eq id k then or_else kept (lookup k s) else lookup k s)
  lookup-keep_held id k none s = if_same (str_eq id k) (lookup k s)
    where
      if_same : (b : Bool) (o : Option StagedHeld) → o ≡ (if b then o else o)
      if_same true o = refl
      if_same false o = refl
  lookup-keep_held id k (some rec) s = refl

  find_by-keep_pending :
      (id k : String) (kept : Option Pending) (ps : List Pending)
      → IsFor id kept
      → find_by id_of k (keep_pending kept ps)
        ≡ (if str_eq id k then or_else kept (find_by id_of k ps) else find_by id_of k ps)
  find_by-keep_pending id k none ps h = if_same (str_eq id k) (find_by id_of k ps)
    where
      if_same : (b : Bool) (o : Option Pending) → o ≡ (if b then o else o)
      if_same true o = refl
      if_same false o = refl
  find_by-keep_pending id k (some p) ps h = rw h refl

  -- The state at an id and the hook for it, as an envelope's own round says.
  abbrev IsRound : String → Held × List Pending → Option StagedHeld → Type 0
  IsRound k after before =
      (lookup k after.0 ≡ left_of timeout now k before)
      × (find_by id_of k after.1 ≡ hook_of timeout now k before)

  keep-IsRound :
      (k : String) (e : String × StagedHeld) (s : Held)
      → IsRound k (tick_map timeout now s) (lookup k s)
      → str_eq e.0 k ≡ false
      → IsRound k (tick_map timeout now (e ∷ s)) (lookup k s)
  unfolding tick_map
  keep-IsRound k e s h other =
      let (left, hook) = tick_held timeout now e.0 e.1 in
      let (after, hooks) = tick_map timeout now s in
      (
        lookup-keep_held e.0 k left after ∙ rw other h.0,
        find_by-keep_pending e.0 k hook hooks (tick_held-IsFor e.0 e.1) ∙ rw other h.1,
      )

  head-IsRound :
      (e : String × StagedHeld) (s : Held)
      → IsRound e.0 (tick_map timeout now s) none
      → IsRound e.0 (tick_map timeout now (e ∷ s)) (some e.1)
  unfolding tick_map
  head-IsRound e s h =
      let (left, hook) = tick_held timeout now e.0 e.1 in
      let (after, hooks) = tick_map timeout now s in
      let same : str_eq e.0 e.0 ≡ true = (eq_iff e.0 e.0).1 refl in
      (
        lookup-keep_held e.0 e.0 left after ∙ rw same (ap (or_else left) h.0 ∙ or_else-none left),
        find_by-keep_pending e.0 e.0 hook hooks (tick_held-IsFor e.0 e.1)
            ∙ rw same (ap (or_else hook) h.1 ∙ or_else-none hook),
      )

  tick_map_lem : (k : String) (s : Held) → IsMap s → IsRound k (tick_map timeout now s) (lookup k s)
  unfolding tick_map
  tick_map_lem k [] h = (refl, refl)
  tick_map_lem k (e ∷ s) h = elim (Bool-cases (str_eq e.0 k)) [
    | inl same ↦
        let found : IsRound e.0 (tick_map timeout now (e ∷ s)) (some e.1) =
          head-IsRound e s
            (subst (IsRound e.0 (tick_map timeout now s)) h.0 (tick_map_lem e.0 s h.1)) in
        rw same (
          subst (λ j. IsRound j (tick_map timeout now (e ∷ s)) (some e.1)) ((eq_iff e.0 k).0 same)
            found)
    | inr other ↦ rw other (keep-IsRound k e s (tick_map_lem k s h.1) other)
  ]

  tick_map-IsMap : (s : Held) → IsMap s → IsMap (tick_map timeout now s).0
  unfolding tick_map
  tick_map-IsMap [] h = tt
  tick_map-IsMap (e ∷ s) h =
      keep_head (tick_held timeout now e.0 e.1).0
        ((tick_map_lem e.0 s h.1).0 ∙ ap (left_of timeout now e.0) h.0) (tick_map-IsMap s h.1)
    where
      keep_head :
          (left : Option StagedHeld)
          → lookup e.0 (tick_map timeout now s).0 ≡ none
          → IsMap (tick_map timeout now s).0
          → IsMap (keep_held e.0 left (tick_map timeout now s).0)
      keep_head none absent m = m
      keep_head (some rec) absent m = (absent, m)

  tick_map-IsUnique : (s : Held) → IsMap s → IsUnique id_of (tick_map timeout now s).1
  unfolding tick_map
  tick_map-IsUnique [] h = tt
  tick_map-IsUnique (e ∷ s) h =
      keep_head (tick_held timeout now e.0 e.1).1 (tick_held-IsFor e.0 e.1)
        ((tick_map_lem e.0 s h.1).1 ∙ ap (hook_of timeout now e.0) h.0) (tick_map-IsUnique s h.1)
    where
      keep_head :
          (hook : Option Pending)
          → IsFor e.0 hook
          → find_by id_of e.0 (tick_map timeout now s).1 ≡ none
          → IsUnique id_of (tick_map timeout now s).1
          → IsUnique id_of (keep_pending hook (tick_map timeout now s).1)
      keep_head none for absent u = u
      keep_head (some p) for absent u = (rw for absent, u)

  -- The hooks of a tick, in the order in which they are run.
  unfoldable pub hooks : Held → List Pending
  hooks s = sort_by id_before (tick_map timeout now s).1

  -- What stays at an id, and the hook for it, are what the round of its envelope says, and no id
  -- stands twice afterwards.
  pub tick-IsRound :
      (k : String) (hook : Pending → Option String) (s : Held)
      → IsMap s
      → (lookup k (tick timeout now hook s).0 ≡ left_of timeout now k (lookup k s))
        × (find_by id_of k (hooks s) ≡ hook_of timeout now k (lookup k s))
        × IsMap (tick timeout now hook s).0
  unfolding tick hooks
  tick-IsRound k hook s h = (
    (tick_map_lem k s h).0,
    find_by-sort_by id_of id_before k _ (tick_map-IsUnique s h) ∙ (tick_map_lem k s h).1,
    tick_map-IsMap s h,
  )
