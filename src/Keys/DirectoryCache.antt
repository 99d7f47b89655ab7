-- ===== src/Keys/DirectoryCache.antt =====
-- src/keys/directory_cache.ts: the highest revision that has been accepted of each user's directory.
-- The validation of a directory's schema and the check of its signature are parameters, of which the
-- first answers with its error.
pub mod Rollback
use semp_ts.Common.{
  ℕ, String, Bool, true, false, Option, none, some, List, [], ◌∷◌, leb, ltb, ◌==◌, if◌then◌else◌,
  lookup, insert, remove, Fallible, ok, throw, throw_if, ◌>>=◌, ◌>>◌, length,
}

pub data Role : Type 0 where
  full_access delegated : Role

pub record DeviceEntry : Type 0 where
  pub device_id : String
  pub role : Role
  pub certificate_id : Option String

pub record DeviceDirectory : Type 0 where
  pub user_id : String
  pub revision : ℕ
  pub devices : List DeviceEntry

pub data CacheError : Type 0 where
  invalid : String → CacheError
  missing_key unverified : CacheError
  rollback : String → ℕ → ℕ → CacheError
  delegated_entry : String → String → CacheError

-- A check answers with the error that it throws.
abbrev pub CertificateCheck : Type 0
CertificateCheck = String → Option String

abbrev pub Cache : Type 0
Cache = List (String × ℕ)

-- The loop over the directory's entries.
unfoldable pub check_devices : CertificateCheck → List DeviceEntry → Fallible CacheError (Unit {0})
check_devices check [] = ok tt
check_devices check (entry ∷ entries) =
    let rest = check_devices check entries in
    elim entry.role [
      | full_access ↦ rest
      | delegated ↦ elim entry.certificate_id [
        | none ↦ rest
        | some certificate ↦ elim (check certificate) [
          | some e ↦ throw (delegated_entry entry.device_id e)
          | none ↦ rest
        ]
      ]
    ]

unfoldable pub check_rollback : DeviceDirectory → Cache → Fallible CacheError (Unit {0})
check_rollback dir cache = elim (lookup dir.user_id cache) [
  | none ↦ ok tt
  | some cached ↦
      if ltb dir.revision cached then throw (rollback dir.user_id dir.revision cached) else ok tt
]

unfoldable pub check_certificates :
    Option CertificateCheck → DeviceDirectory → Fallible CacheError (Unit {0})
unfolding check_devices
check_certificates none dir = ok tt
check_certificates (some check) dir = check_devices check dir.devices

module _ (validate : DeviceDirectory → Option String)
    (verify : DeviceDirectory → List ℕ → Bool) where
  unfoldable pub check_schema : DeviceDirectory → Fallible CacheError (Unit {0})
  check_schema dir = elim (validate dir) [ none ↦ ok tt | some e ↦ throw (invalid e) ]

  unfoldable pub verify_and_cache :
      DeviceDirectory → List ℕ → Option CertificateCheck → Cache → Fallible CacheError Cache
  verify_and_cache dir key cert_check cache = do
    check_schema dir
    throw_if (length key == 0) missing_key
    throw_if (if verify dir key then false else true) unverified
    check_rollback dir cache
    check_certificates cert_check dir
    ok (insert dir.user_id dir.revision cache)

unfoldable pub highest_revision : String → Cache → ℕ
highest_revision user_id cache = elim (lookup user_id cache) [ none ↦ 0 | some revision ↦ revision ]

unfoldable pub reset : String → Cache → Cache
reset user_id cache = remove user_id cache
