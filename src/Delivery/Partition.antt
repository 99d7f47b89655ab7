-- ===== src/Delivery/Partition.antt =====
-- src/delivery/stage_partition.ts: the stages by which an envelope reaches the devices of an account.
-- A `Set` is the test of its members, and the provider of certificates is the caller's function.
pub mod Stages
mod Tests
use Prim.Native.String
use Prim.Native.Nat.{Ordering}
use semp_ts.Common.{
  ℕ, suc, ◌+◌, ◌/◌, ◌%◌, String, Bool, true, false, Option, none, some, List, [], ◌∷◌, ◌++◌, map,
  leb, ltb, ◌==◌, str_eq, not, ◌&&◌, ◌||◌, if◌then◌else◌, insert_by, sort_by, max,
}
use semp_ts.Keys.Certificate.{ScopeMatcher}
use semp_ts.Delivery.Retry.{or_zero}
use semp_ts.Keys.Certificate.Matching.{AddressIdentity, scope_allows_sender}
use semp_ts.Delivery.Disposition.{StagedHeldStage}

pub record DirectoryDevice : Type 0 where
  pub device_id : String
  pub device_public_key : String
  pub role : String

pub record Eligible : Type 0 where
  pub device_id : String
  pub stage : ℕ

-- What the walk over the directory has found.
pub record Tally : Type 0 where
  pub eligible : List Eligible
  pub full_access_ids : List String
  pub max_delegate_mode : ℕ

-- What the walk reads of a delegate's certificate: the matcher of its receive scope, and the matcher's
-- `delivery_stage`, which is a whole number in a certificate that validates. A certificate whose
-- stage is a fraction is outside the model.
pub record Delegate : Type 0 where
  pub receive : ScopeMatcher
  pub delivery_stage : Option ℕ

abbrev pub is_active : Delegate → Bool
is_active cert = not (str_eq cert.receive.mode "none")

-- `delivery_stage ?? 0`
abbrev pub cert_stage : Delegate → ℕ
cert_stage cert = or_zero cert.delivery_stage

abbrev pub raise : Delegate → Tally → Tally
raise cert t =
    if is_active cert && ltb t.max_delegate_mode (cert_stage cert)
    then record t { max_delegate_mode = cert_stage cert }
    else t

module _ (lower : String → String) (provider : String → Option Delegate)
    (recipients : String → Bool) (sender : AddressIdentity) where
  -- The eligible delegate's stage, at least 1.
  abbrev pub add_delegate : DirectoryDevice → Delegate → Tally → Tally
  add_delegate dev cert t =
      if recipients dev.device_public_key
        && is_active cert
        && scope_allows_sender lower cert.receive sender
      then record t {
        eligible =
            t.eligible
            ++ record {
              device_id = dev.device_id;
              stage = if ltb (cert_stage cert) 1 then 1 else cert_stage cert;
            }
              ∷ [];
      }
      else t

  abbrev pub with_certificate : DirectoryDevice → Option Delegate → Tally → Tally
  with_certificate dev none t = t
  with_certificate dev (some cert) t = add_delegate dev cert (raise cert t)

  abbrev pub add_full_access : DirectoryDevice → Tally → Tally
  add_full_access dev t =
      if recipients dev.device_public_key
      then record t { full_access_ids = t.full_access_ids ++ dev.device_id ∷ [] }
      else t

  -- A round of the walk.
  abbrev pub tally_one : DirectoryDevice → Tally → Tally
  tally_one dev t =
      if str_eq dev.role "full_access"
      then add_full_access dev t
      else with_certificate dev (provider dev.device_id) t

  unfoldable pub tally_from : List DirectoryDevice → Tally → Tally
  tally_from [] t = t
  tally_from (dev ∷ devs) t = tally_from devs (tally_one dev t)

abbrev pub empty_tally : Tally
empty_tally = record { eligible = []; full_access_ids = []; max_delegate_mode = 0 }

-- n + 1 on numbers as doubles: exact below 2^53; from there to 2^54 the numbers are even, and the sum
-- is rounded to the multiple of 4; from 2^54 on it is n.
abbrev pub add_one : ℕ → ℕ
add_one n =
    if ltb n 9007199254740992
    then n + 1
    else if ltb n 18014398509481984 && n / 2 % 2 == 1
    then n + 2
    else n

unfoldable pub full_access_stage : ℕ → ℕ
full_access_stage max_delegate_mode =
    if ltb 0 max_delegate_mode then add_one max_delegate_mode else 1

abbrev pub at_stage : ℕ → String → Eligible
at_stage stage id = record { device_id = id; stage = stage }

unfoldable pub all_eligible : Tally → List Eligible
unfolding full_access_stage
all_eligible t =
    t.eligible ++ map (at_stage (full_access_stage t.max_delegate_mode)) t.full_access_ids

abbrev pub Groups : Type 0
Groups = List (ℕ × List String)

-- byStage.get(stage), and byStage.set with the device appended.
unfoldable pub add_to_group : Eligible → Groups → Groups
add_to_group e [] = (e.stage, e.device_id ∷ []) ∷ []
add_to_group e (g ∷ gs) =
    let rest = add_to_group e gs in
    if g.0 == e.stage then (g.0, g.1 ++ e.device_id ∷ []) ∷ gs else g ∷ rest

unfoldable pub group_from : List Eligible → Groups → Groups
unfolding add_to_group
group_from [] gs = gs
group_from (e ∷ es) gs = group_from es (add_to_group e gs)

-- ids.sort()
unfoldable pub id_order : String → String → Bool
id_order a b = elim (String.compare a b) [ Ordering.gt ↦ false | _ ↦ true ]

abbrev pub stage_of_group : ℕ × List String → StagedHeldStage
stage_of_group g = record {
  stage = g.0;
  pending_device_ids = sort_by id_order g.1;
  dispositions = [];
}

abbrev pub group_order : ℕ × List String → ℕ × List String → Bool
group_order g h = leb g.0 h.0

unfoldable pub partition_stages :
    (String → String)
    → (String → Option Delegate)
    → (String → Bool)
    → AddressIdentity
    → List DirectoryDevice
    → List StagedHeldStage
unfolding tally_from all_eligible group_from
partition_stages lower provider recipients sender devices = map stage_of_group (
    sort_by group_order (
      group_from (all_eligible (tally_from lower provider recipients sender devices empty_tally))
        []))
