-- ===== src/Delivery/Partition/Stages.antt =====
-- The stages of a partition, which the staged runner takes as they are.
use semp_ts.Common.{
  ℕ, ◌+◌, ◌<◌, String, ◌≡◌, refl, ap, ◌∙◌, Bool, true, false, Option, none, some, List, [], ◌∷◌,
  ◌++◌, map, leb, ◌==◌, str_eq, ◌||◌, lt→ltb, insert_by, sort_by, All, All-insert_by, All-sort_by,
  ok, arith, Bool-cases, inl, inr,
}
use semp_ts.Keys.Certificate.Matching.{AddressIdentity}
use semp_ts.Delivery.Disposition.{is_empty}
use semp_ts.Delivery.Staged.{cleaned, is_increasing, hold_checked, iso_second}
use semp_ts.Delivery.Partition.{
  Delegate, DirectoryDevice, Eligible, Groups, add_to_group, group_from, id_order, stage_of_group,
  group_order, partition_stages, all_eligible, tally_from, empty_tally,
}

abbrev has_key : ℕ → Groups → Bool
has_key k [] = false
has_key k (g ∷ gs) = g.0 == k || has_key k gs

abbrev IsDistinct : Groups → Type 0
IsDistinct [] = Unit
IsDistinct (g ∷ gs) = (has_key g.0 gs ≡ false) × IsDistinct gs

-- Every group comes before the groups after it.
abbrev IsRising : Groups → Type 0
IsRising [] = Unit
IsRising (g ∷ gs) = All (λ h. g.0 < h.0) gs × IsRising gs

abbrev IsFilled : Groups → Type 0
IsFilled gs = All (λ g. is_empty g.1 ≡ false) gs

has_key-add_to_group :
    (k : ℕ) (e : Eligible) (gs : Groups)
    → has_key k (add_to_group e gs) ≡ (e.stage == k || has_key k gs)
unfolding add_to_group
has_key-add_to_group k e [] = refl
has_key-add_to_group k e (g ∷ gs) = ground (arith, has_key-add_to_group k e gs)

add_to_group-IsDistinct :
    (e : Eligible) (gs : Groups) → IsDistinct gs → IsDistinct (add_to_group e gs)
unfolding add_to_group
add_to_group-IsDistinct e [] h = (refl, tt)
add_to_group-IsDistinct e (g ∷ gs) h = elim (Bool-cases (g.0 == e.stage)) [
  | inl same ↦ rw same h
  | inr other ↦
      rw other (
        has_key-add_to_group g.0 e gs ∙ ground (arith, h.0, other),
        add_to_group-IsDistinct e gs h.1,
      )
]

append-filled : (ids : List String) (id : String) → is_empty (ids ++ id ∷ []) ≡ false
append-filled [] id = refl
append-filled (x ∷ ids) id = refl

add_to_group-IsFilled : (e : Eligible) (gs : Groups) → IsFilled gs → IsFilled (add_to_group e gs)
unfolding add_to_group
add_to_group-IsFilled e [] h = (refl, tt)
add_to_group-IsFilled e (g ∷ gs) h = elim (Bool-cases (g.0 == e.stage)) [
  | inl same ↦ rw same (append-filled g.1 e.device_id, h.1)
  | inr other ↦ rw other (h.0, add_to_group-IsFilled e gs h.1)
]

group_from_lem :
    (es : List Eligible) (gs : Groups)
    → IsDistinct gs
    → IsFilled gs
    → IsDistinct (group_from es gs) × IsFilled (group_from es gs)
unfolding group_from
group_from_lem [] gs d f = (d, f)
group_from_lem (e ∷ es) gs d f =
    group_from_lem es (add_to_group e gs) (add_to_group-IsDistinct e gs d)
      (add_to_group-IsFilled e gs f)

has_key-insert_by :
    (k : ℕ) (g : ℕ × List String) (gs : Groups)
    → has_key k (insert_by group_order g gs) ≡ (g.0 == k || has_key k gs)
has_key-insert_by k g [] = refl
has_key-insert_by k g (h ∷ gs) = ground (arith, has_key-insert_by k g gs)

has_key-sort_by : (k : ℕ) (gs : Groups) → has_key k (sort_by group_order gs) ≡ has_key k gs
has_key-sort_by k [] = refl
has_key-sort_by k (g ∷ gs) =
    has_key-insert_by k g (sort_by group_order gs) ∙ ap (λ b. g.0 == k || b) (has_key-sort_by k gs)

All-lt : (j k : ℕ) (gs : Groups) → j < k → All (λ h. k < h.0) gs → All (λ h. j < h.0) gs
All-lt j k [] le h = tt
All-lt j k (g ∷ gs) le h = (omega (arith, le, h.0), All-lt j k gs le h.1)

insert_by-IsRising :
    (g : ℕ × List String) (gs : Groups)
    → has_key g.0 gs ≡ false
    → IsRising gs
    → IsRising (insert_by group_order g gs)
insert_by-IsRising g [] new h = (tt, tt)
insert_by-IsRising g (x ∷ gs) new h = elim (Bool-cases (leb g.0 x.0)) [
  | inl first ↦
      let lt : g.0 < x.0 = ground (arith, first, new) in
      rw first ((lt, All-lt g.0 x.0 gs lt h.0), h)
  | inr later ↦
      let gt : x.0 < g.0 = ground (arith, later) in
      let new' : has_key g.0 gs ≡ false = ground (arith, new) in
      rw later
        (All-insert_by (λ y. x.0 < y.0) group_order g gs gt h.0, insert_by-IsRising g gs new' h.1)
]

sort_by-IsRising : (gs : Groups) → IsDistinct gs → IsRising (sort_by group_order gs)
sort_by-IsRising [] d = tt
sort_by-IsRising (g ∷ gs) d =
    insert_by-IsRising g (sort_by group_order gs) (has_key-sort_by g.0 gs ∙ d.0)
      (sort_by-IsRising gs d.1)

insert_by-filled : (id : String) (ids : List String) → is_empty (insert_by id_order id ids) ≡ false
insert_by-filled id [] = refl
insert_by-filled id (x ∷ ids) = elim (Bool-cases (id_order id x)) [
  | inl e ↦ rw e refl
  | inr e ↦ rw e refl
]

sort_by-filled : (ids : List String) → is_empty (sort_by id_order ids) ≡ is_empty ids
sort_by-filled [] = refl
sort_by-filled (id ∷ ids) = insert_by-filled id (sort_by id_order ids)

cleaned-stages :
    (gs : Groups) → IsFilled gs → cleaned (map stage_of_group gs) ≡ map stage_of_group gs
unfolding cleaned
cleaned-stages [] h = refl
cleaned-stages (g ∷ gs) h =
    rw (sort_by-filled g.1, h.0) (ap (λ ss. stage_of_group g ∷ ss) (cleaned-stages gs h.1))

is_increasing-stages : (gs : Groups) → IsRising gs → is_increasing (map stage_of_group gs) ≡ true
unfolding is_increasing
is_increasing-stages [] h = refl
is_increasing-stages (g ∷ []) h = refl
is_increasing-stages (g ∷ x ∷ gs) h = rw (lt→ltb g.0 x.0 h.0.0) (is_increasing-stages (x ∷ gs) h.1)

-- The staged runner takes a partition as it is: whatever the directory and the certificates, a
-- partition that is not empty passes every check of `hold` for a named envelope that is not held, and
-- the record has its stages unchanged.
pub hold_checked-partition_stages :
    (lower : String → String) (provider : String → Option Delegate) (recipients : String → Bool)
    (sender : AddressIdentity) (devices : List DirectoryDevice) (timeout now : ℕ) (id : String)
    → str_eq id "" ≡ false
    → is_empty (partition_stages lower provider recipients sender devices) ≡ false
    → hold_checked timeout now id (partition_stages lower provider recipients sender devices) none
      ≡ ok (record {
        envelope_id = id;
        stages = partition_stages lower provider recipients sender devices;
        deadline = some (iso_second (now + timeout));
      })
unfolding hold_checked partition_stages
hold_checked-partition_stages lower provider recipients sender devices timeout now id named
      some_stage =
    let found = all_eligible (tally_from lower provider recipients sender devices empty_tally) in
    let (distinct, filled) = group_from_lem found [] tt tt in
    let gs = sort_by group_order (group_from found []) in
    let kept : cleaned (map stage_of_group gs) ≡ map stage_of_group gs =
      cleaned-stages gs
        (All-sort_by (λ g. is_empty g.1 ≡ false) group_order (group_from found []) filled) in
    let rising : is_increasing (map stage_of_group gs) ≡ true =
      is_increasing-stages gs (sort_by-IsRising (group_from found []) distinct) in
    rw (named, kept) (rw (some_stage, rising) refl)
