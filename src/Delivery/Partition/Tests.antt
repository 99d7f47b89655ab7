-- ===== src/Delivery/Partition/Tests.antt =====
-- An account with a phone and a filter, with the theorems at it.
use semp_ts.Common.{
  ℕ, ◌+◌, String, ◌≡◌, refl, Bool, true, false, Option, none, some, List, [], ◌∷◌, str_eq,
  if◌then◌else◌, ok,
}
use semp_ts.Keys.Certificate.{whole}
use semp_ts.Keys.Certificate.Matching.{
  AddressIdentity, scope_allows_sender, scope_allows_recipient, match_any,
}
use semp_ts.Delivery.Disposition.{is_empty}
use semp_ts.Delivery.Staged.{hold_checked, iso_second}
use semp_ts.Delivery.Partition.{
  Delegate, DirectoryDevice, tally_from, partition_stages, all_eligible, full_access_stage,
  group_from, add_to_group, id_order,
}
use semp_ts.Delivery.Partition.Stages.{hold_checked-partition_stages}

abbrev filter_certificate : Option ℕ → Delegate
filter_certificate stage = record {
  receive = record {
    mode = "unrestricted";
    allow = none;
    deny = none;
    rate_limits = [];
    delivery_stage = elim stage [ none ↦ none | some n ↦ some (whole n) ];
  };
  delivery_stage = stage;
}

abbrev devices : List DirectoryDevice
devices =
    record { device_id = "phone"; device_public_key = "phone-key"; role = "full_access" }
    ∷ record { device_id = "filter"; device_public_key = "filter-key"; role = "delegated" }
    ∷ []

abbrev provider : Option ℕ → String → Option Delegate
provider stage id = if str_eq id "filter" then some (filter_certificate stage) else none

abbrev sender : AddressIdentity
sender = record { address = "bob@b.example"; server = none }

abbrev everyone : String → Bool
everyone key = true

abbrev same_text : String → String
same_text text = text

-- Above 2^53 the full-access stage is the delegate's own.
one_stage_above : full_access_stage 9007199254740992 ≡ 9007199254740992
unfolding full_access_stage
one_stage_above = refl

two_stages :
    partition_stages same_text (provider (some 2)) everyone sender devices
    ≡ record { stage = 2; pending_device_ids = "filter" ∷ []; dispositions = [] }
      ∷ record { stage = 3; pending_device_ids = "phone" ∷ []; dispositions = [] }
      ∷ []
unfolding partition_stages tally_from scope_allows_sender scope_allows_recipient match_any
    all_eligible full_access_stage group_from add_to_group id_order
two_stages = refl

-- The filter, whose certificate has no stage, votes along with the phone.
one_stage :
    partition_stages same_text (provider none) everyone sender devices
    ≡ record { stage = 1; pending_device_ids = "filter" ∷ "phone" ∷ []; dispositions = [] } ∷ []
unfolding partition_stages tally_from scope_allows_sender scope_allows_recipient match_any
    all_eligible full_access_stage group_from add_to_group id_order
one_stage = refl

some_stage :
    is_empty (partition_stages same_text (provider (some 2)) everyone sender devices) ≡ false
unfolding partition_stages tally_from scope_allows_sender scope_allows_recipient match_any
    all_eligible full_access_stage group_from add_to_group id_order
some_stage = refl

hold_checked-partition_stages_example :
    hold_checked 30000 1000 "e1"
      (partition_stages same_text (provider (some 2)) everyone sender devices)
      none
    ≡ ok (record {
      envelope_id = "e1";
      stages = partition_stages same_text (provider (some 2)) everyone sender devices;
      deadline = some (iso_second (1000 + 30000));
    })
hold_checked-partition_stages_example =
    hold_checked-partition_stages same_text (provider (some 2)) everyone sender devices 30000 1000
      "e1" refl some_stage
