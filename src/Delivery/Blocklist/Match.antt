-- ===== src/Delivery/Blocklist/Match.antt =====
-- The match is the first of the entries of the highest level that apply.
use semp_ts.Common.{
  ℕ, ◌≤◌, ◌<◌, String, ◌≡◌, refl, ap, ◌⊎◌, inl, inr, Option, none, some, List, [], ◌∷◌, ◌++◌, ltb,
  ◌==◌, arith, Bool-cases, All, ltb→lt,
}
use semp_ts.Delivery.Blocklist.{
  BlockEntry, BlockListSender, rank, entity_rank, match_from, match_block_list,
}
use semp_ts.Delivery.Blocklist.Applying.{Applies, level, Applies-rank, rank-Applies, level-positive}

module _ (date_parse : String → Option ℕ) (lower : String → String) (sender : BlockListSender)
    (now : ℕ) where
  -- `e` is in the list at a place: above `floor`, before it only lower ranks, and after it no higher.
  pub record IsFirstBest (entries : List BlockEntry) (floor : ℕ) (e : BlockEntry) : Type 0 where
    pub earlier : List BlockEntry
    pub later : List BlockEntry
    pub placed : entries ≡ earlier ++ e ∷ later
    pub above : floor < rank date_parse lower sender now e
    pub lower_before :
        All (λ p. rank date_parse lower sender now p < rank date_parse lower sender now e) earlier
    pub none_higher :
        All (λ p. rank date_parse lower sender now p ≤ rank date_parse lower sender now e) later

  rank_le : (e : BlockEntry) → rank date_parse lower sender now e ≤ 3
  unfolding rank entity_rank
  rank_le e = ground arith

  ranks_le : (es : List BlockEntry) → All (λ p. rank date_parse lower sender now p ≤ 3) es
  ranks_le [] = tt
  ranks_le (e ∷ es) = (rank_le e, ranks_le es)

  -- What the loop comes to: nothing is above the best so far, which stays, or a first best is found.
  Outcomes : List BlockEntry → ℕ → Option BlockEntry → Option BlockEntry → Type 0
  Outcomes entries best_rank best_entry found =
      ((found ≡ best_entry) × All (λ p. rank date_parse lower sender now p ≤ best_rank) entries)
      ⊎ ((e : BlockEntry) × (found ≡ some e) × IsFirstBest entries best_rank e)

  behind :
      (entry : BlockEntry) (entries : List BlockEntry) (floor' floor : ℕ) (e : BlockEntry)
      → floor' ≤ floor
      → rank date_parse lower sender now entry ≤ floor
      → IsFirstBest entries floor e
      → IsFirstBest (entry ∷ entries) floor' e
  behind entry entries floor' floor e le low h = record {
    earlier = entry ∷ h.earlier;
    later = h.later;
    placed = ap (λ es. entry ∷ es) h.placed;
    above = omega (arith, h.above);
    lower_before = (omega (arith, h.above), h.lower_before);
    none_higher = h.none_higher;
  }

  here :
      (entry : BlockEntry) (entries : List BlockEntry) (floor : ℕ)
      → floor < rank date_parse lower sender now entry
      → All
          (λ p. rank date_parse lower sender now p ≤ rank date_parse lower sender now entry)
          entries
      → IsFirstBest (entry ∷ entries) floor entry
  here entry entries floor above rest = record {
    earlier = [];
    later = entries;
    placed = refl;
    above = above;
    lower_before = tt;
    none_higher = rest;
  }

  match_from-Outcomes :
      (entries : List BlockEntry) (best_rank : ℕ) (best_entry : Option BlockEntry)
      → Outcomes entries best_rank best_entry
          (match_from date_parse lower sender now entries best_rank best_entry)
  unfolding match_from Outcomes
  match_from-Outcomes [] best_rank best_entry = inl (refl, tt)
  match_from-Outcomes (entry ∷ entries) best_rank best_entry =
      let r = rank date_parse lower sender now entry in
      elim (Bool-cases (ltb best_rank r)) [
        | inr low ↦
            let le : r ≤ best_rank = ground (arith, low) in
            rw low (elim (match_from-Outcomes entries best_rank best_entry) [
              | inl (same, rest) ↦ inl (same, (le, rest))
              | inr (e, found, first) ↦
                  inr (e, found, behind entry entries best_rank best_rank e (omega arith) le first)
            ])
        | inl high ↦
            let lt : best_rank < r = ltb→lt best_rank r high in
            elim (Bool-cases (r == 3)) [
              | inl top ↦
                  let three : r ≡ 3 = ground (arith, top) in
                  rw (high, top)
                    (inr
                      (entry, refl, here entry entries best_rank lt (rw three (ranks_le entries))))
              | inr under ↦
                  rw (high, under)
                    (elim (match_from-Outcomes entries r (some entry)) [
                      | inl (same, rest) ↦ inr (entry, same, here entry entries best_rank lt rest)
                      | inr (e, found, first) ↦ inr (
                        e,
                        found,
                        behind entry entries best_rank r e (omega arith) (omega arith) first,
                      )
                    ])
            ]
      ]

  -- `e` is in the list at a place: it applies, the entries before it that apply are at lower levels,
  -- and those after it at no higher ones.
  pub record IsFirstHighest (entries : List BlockEntry) (e : BlockEntry) : Type 0 where
    pub earlier : List BlockEntry
    pub later : List BlockEntry
    pub placed : entries ≡ earlier ++ e ∷ later
    pub applies : Applies date_parse lower sender now e
    pub lower_before :
        All (λ p. Applies date_parse lower sender now p → level p.entity < level e.entity) earlier
    pub none_higher :
        All (λ p. Applies date_parse lower sender now p → level p.entity ≤ level e.entity) later

  All-below :
      (e : BlockEntry) (ps : List BlockEntry)
      → Applies date_parse lower sender now e
      → All (λ p. rank date_parse lower sender now p < rank date_parse lower sender now e) ps
      → All (λ p. Applies date_parse lower sender now p → level p.entity < level e.entity) ps
  All-below e [] a h = tt
  All-below e (p ∷ ps) a h = (
    λ b. omega (
      arith,
      h.0,
      rank-Applies date_parse lower sender now e a,
      rank-Applies date_parse lower sender now p b,
    ),
    All-below e ps a h.1,
  )

  All-upto :
      (e : BlockEntry) (ps : List BlockEntry)
      → Applies date_parse lower sender now e
      → All (λ p. rank date_parse lower sender now p ≤ rank date_parse lower sender now e) ps
      → All (λ p. Applies date_parse lower sender now p → level p.entity ≤ level e.entity) ps
  All-upto e [] a h = tt
  All-upto e (p ∷ ps) a h = (
    λ b. omega (
      arith,
      h.0,
      rank-Applies date_parse lower sender now e a,
      rank-Applies date_parse lower sender now p b,
    ),
    All-upto e ps a h.1,
  )

  All-passed :
      (ps : List BlockEntry)
      → All (λ p. rank date_parse lower sender now p ≤ 0) ps
      → All (λ p. ¬ Applies date_parse lower sender now p) ps
  All-passed [] h = tt
  All-passed (p ∷ ps) h = (
    λ a. absurd (
        omega (
          arith,
          h.0,
          rank-Applies date_parse lower sender now p a,
          level-positive date_parse lower sender now p a,
        )),
    All-passed ps h.1,
  )

  -- The match of a block list: there is none where no entry applies, that is where each has expired,
  -- has a scope that does not cover the envelope, or names another than the sender; otherwise it is an
  -- entry of the list that applies, each applying entry before it is at a lower level (user over server
  -- over domain), and none after it is at a higher one.
  pub match_block_list-IsFirstHighest :
      (entries : List BlockEntry)
      → ((match_block_list date_parse lower (some entries) sender now ≡ none)
          × All (λ p. ¬ Applies date_parse lower sender now p) entries)
        ⊎ ((e : BlockEntry) × (match_block_list date_parse lower (some entries) sender now ≡ some e)
            × IsFirstHighest entries e)
  unfolding match_block_list Outcomes
  match_block_list-IsFirstHighest entries = elim (match_from-Outcomes entries 0 none) [
    | inl (same, passed) ↦ inl (same, All-passed entries passed)
    | inr (e, found, best) ↦
        let a = Applies-rank date_parse lower sender now e best.above in
        inr (
          e,
          found,
          record {
            earlier = best.earlier;
            later = best.later;
            placed = best.placed;
            applies = a;
            lower_before = All-below e best.earlier a best.lower_before;
            none_higher = All-upto e best.later a best.none_higher;
          },
        )
  ]
