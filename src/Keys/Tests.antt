-- ===== src/Keys/Tests.antt =====
-- A directory cache at concrete revisions.
use semp_ts.Common.{
  ℕ, ◌≤◌, String, ◌≡◌, refl, Bool, true, Option, none, List, [], ◌∷◌, ok, ◌≢◌, arith,
}
use semp_ts.Keys.DirectoryCache.{
  DeviceDirectory, Cache, verify_and_cache, highest_revision, check_schema, check_rollback,
  check_certificates,
}
use semp_ts.Keys.DirectoryCache.Rollback.{Fetched, after_fetches, verify_and_cache-no_rollback}

abbrev fine : DeviceDirectory → Option String
fine dir = none

abbrev verified : DeviceDirectory → List ℕ → Bool
verified dir key = true

abbrev revision_of : ℕ → DeviceDirectory
revision_of n = record { user_id = "alice@a.example"; revision = n; devices = [] }

abbrev fetch : ℕ → Fetched
fetch n = record { dir = revision_of n; key = 1 ∷ []; cert_check = none }

accepted :
    verify_and_cache fine verified (revision_of 4) (1 ∷ []) none []
    ≡ ok (("alice@a.example", 4) ∷ [])
unfolding verify_and_cache check_schema check_rollback check_certificates
accepted = refl

verify_and_cache-no_rollback_example :
    ◌≡◌ {A = Option String} (fine (revision_of 4)) none
    × (verified (revision_of 4) (1 ∷ []) ≡ true)
    × (4
        ≤ highest_revision "alice@a.example"
            (after_fetches fine verified (fetch 9 ∷ fetch 5 ∷ []) (("alice@a.example", 4) ∷ [])))
    × ((next : Cache)
        → verify_and_cache fine verified
            (revision_of 3)
            (1 ∷ [])
            none
            (after_fetches fine verified (fetch 9 ∷ fetch 5 ∷ []) (("alice@a.example", 4) ∷ []))
          ≢ ok next)
verify_and_cache-no_rollback_example =
    verify_and_cache-no_rollback fine verified (revision_of 4) (revision_of 3) (1 ∷ []) (1 ∷ [])
      none none [] (("alice@a.example", 4) ∷ []) (fetch 9 ∷ fetch 5 ∷ []) accepted refl
      (omega arith)
