-- ===== src/Delivery/Blocklist.antt =====
-- src/delivery/blocklist.ts: the per-user block list. A timestamp is a text that `Date.parse` reads
-- into milliseconds (none for NaN), a parameter; so is `toLowerCase`. Only the fields that the match
-- reads, and those that the pipeline copies from an entry, are in the records.
pub mod Applying
pub mod Match
use semp_ts.Common.{
  ℕ, String, Bool, true, false, ◌&&◌, ◌||◌, not, Option, none, some, List, [], ◌∷◌, leb, ltb,
  str_eq, ◌==◌, if◌then◌else◌, lookup, insert,
}
use semp_ts.Delivery.Ack.{Acknowledgment}

-- BlocklistEntity, by its `type`; `other` is a type that is not known.
pub data Entity : Type 0 where
  user domain server : Option String → Entity
  other : Entity

-- BlocklistScope; `missing` is an unset or empty scope.
pub data Scope : Type 0 where
  all direct group missing unknown : Scope

pub record BlockEntry : Type 0 where
  pub entity : Entity
  pub acknowledgment : Acknowledgment
  pub reason : Option String
  pub scope : Scope
  pub expires_at : Option String

-- BlockListSender
pub record BlockListSender : Type 0 where
  pub address : Option String
  pub domain : Option String
  pub server : Option String
  pub is_group : Bool

unfoldable pub scope_applies : Scope → Bool → Bool
scope_applies Scope.all is_group = true
scope_applies Scope.direct is_group = not is_group
scope_applies Scope.group is_group = is_group
scope_applies Scope.missing is_group = true
scope_applies Scope.unknown is_group = false

-- x ?? ""
abbrev pub or_empty : Option String → String
or_empty none = ""
or_empty (some text) = text

module _ (date_parse : String → Option ℕ) (lower : String → String) where
  unfoldable pub is_expired : ℕ → BlockEntry → Bool
  is_expired now entry = elim entry.expires_at [
    | none ↦ false
    | some text ↦
        not (str_eq text "") && elim (date_parse text) [ none ↦ false | some t ↦ leb t now ]
  ]

  -- A name of the sender that is not empty is that of the entry, in lower case.
  unfoldable pub is_named : Option String → Option String → Bool
  is_named own listed =
      not (str_eq (lower (or_empty own)) "")
      && str_eq (lower (or_empty listed)) (lower (or_empty own))

  -- The rank of an entity that fits the sender; 0 is the `continue` of one that does not.
  unfoldable pub entity_rank : BlockListSender → Entity → ℕ
  unfolding is_named
  entity_rank sender (Entity.user address) = if is_named sender.address address then 3 else 0
  entity_rank sender (Entity.server hostname) = if is_named sender.server hostname then 2 else 0
  entity_rank sender (Entity.domain name) = if is_named sender.domain name then 1 else 0
  entity_rank sender Entity.other = 0

  -- The rank of an entry, 0 where the loop passes over it.
  unfoldable pub rank : BlockListSender → ℕ → BlockEntry → ℕ
  unfolding is_expired scope_applies entity_rank
  rank sender now entry =
      if is_expired now entry
      then 0
      else if scope_applies entry.scope sender.is_group
      then entity_rank sender entry.entity
      else 0

  -- The loop of `matchBlockList`, which ends at the first entry of the highest rank.
  unfoldable pub match_from :
      BlockListSender → ℕ → List BlockEntry → ℕ → Option BlockEntry → Option BlockEntry
  match_from sender now [] best_rank best_entry = best_entry
  match_from sender now (entry ∷ entries) best_rank best_entry =
      let r = rank sender now entry in
      let kept = match_from sender now entries best_rank best_entry in
      let better = match_from sender now entries r (some entry) in
      if ltb best_rank r then if r == 3 then some entry else better else kept

  unfoldable pub match_block_list :
      Option (List BlockEntry) → BlockListSender → ℕ → Option BlockEntry
  unfolding match_from
  match_block_list none sender now = none
  match_block_list (some entries) sender now = match_from sender now entries 0 none

  -- `StaticBlockListLookup`: its map, and its lookup.
  unfoldable pub new_lists :
      List (String × List BlockEntry)
      → List (String × List BlockEntry)
      → List (String × List BlockEntry)
  new_lists [] lists = lists
  new_lists (given ∷ rest) lists = new_lists rest (insert (lower given.0) given.1 lists)

  unfoldable pub lookup_list : String → List (String × List BlockEntry) → Option (List BlockEntry)
  lookup_list recipient lists = lookup (lower recipient) lists
