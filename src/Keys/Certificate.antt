-- ===== src/Keys/Certificate.antt =====
-- src/keys/device_certificate.ts: the scoped certificate of a delegated device, its validation and its
-- matchers. Values have their declared types; a number is whole, negative or fractional. `Date.parse`
-- and `toLowerCase` are parameters.
pub mod Matching
use semp_ts.Common.{
  ℕ, ◌+◌, ◌-◌, ◌*◌, String, Bool, true, false, Option, none, some, List, [], ◌∷◌, leb, ltb, ◌==◌,
  str_eq, not, ◌&&◌, ◌||◌, if◌then◌else◌, length, Fallible, ok, throw, throw_if, ◌>>=◌, ◌>>◌,
}

pub data Quantity : Type 0 where
  whole : ℕ → Quantity
  negative fractional : Quantity

pub record ScopeEntry : Type 0 where
  pub type : String
  pub address : Option String
  pub domain : Option String
  pub server : Option String

pub record RateLimitTier : Type 0 where
  pub period_seconds : Quantity
  pub amount_allowed : Quantity

pub record ScopeMatcher : Type 0 where
  pub mode : String
  pub allow : Option (List ScopeEntry)
  pub deny : Option (List ScopeEntry)
  pub rate_limits : List RateLimitTier
  pub delivery_stage : Option Quantity

pub record ScopeResource : Type 0 where
  pub read : Bool
  pub write : Bool
  pub rate_limits : List RateLimitTier

pub record Scope : Type 0 where
  pub send : ScopeMatcher
  pub receive : ScopeMatcher
  pub blocklist : ScopeResource
  pub keys : ScopeResource
  pub devices : ScopeResource

pub record CertificateSignature : Type 0 where
  pub algorithm : String
  pub key_id : String
  pub value : String

pub record DeviceCertificate : Type 0 where
  pub type : String
  pub version : String
  pub device_id : String
  pub device_public_key : String
  pub account : String
  pub issued_by : String
  pub issued_at : String
  pub expires_at : String
  pub scope : Scope
  pub signature : CertificateSignature

pub data CertificateError : Type 0 where
  wrong_type missing_field unread_time not_after_issue lifetime_exceeds_cap unsigned :
      CertificateError
  entries_not_empty needs_allow forbids_deny needs_deny forbids_allow invalid_mode :
      CertificateError
  too_many_entries stage_on_send stage_not_positive invalid_entry : CertificateError
  too_many_tiers bad_period bad_amount : CertificateError

abbrev pub max_scope_matcher_entries : ℕ
max_scope_matcher_entries = 10000

abbrev pub max_scope_rate_limit_tiers : ℕ
max_scope_rate_limit_tiers = 16

abbrev pub max_device_certificate_lifetime_ms : ℕ
max_device_certificate_lifetime_ms = 365 * 24 * 3600 * 1000

-- An integer of at least `least`.
abbrev pub is_at_least : ℕ → Quantity → Bool
is_at_least least (whole n) = leb least n
is_at_least least negative = false
is_at_least least fractional = false

unfoldable pub validate_tiers : List RateLimitTier → Fallible CertificateError (Unit {0})
validate_tiers [] = ok tt
validate_tiers (t ∷ ts) = do
  throw_if (not (is_at_least 1 t.period_seconds)) bad_period
  throw_if (not (is_at_least 0 t.amount_allowed)) bad_amount
  validate_tiers ts

unfoldable pub validate_rate_limits : List RateLimitTier → Fallible CertificateError (Unit {0})
unfolding validate_tiers
validate_rate_limits ts = do
  throw_if (ltb max_scope_rate_limit_tiers (length ts)) too_many_tiers
  validate_tiers ts

abbrev pub or_empty : Option String → String
or_empty none = ""
or_empty (some text) = text

abbrev pub is_named : Option String → Bool
is_named name = not (str_eq (or_empty name) "")

unfoldable pub validate_scope_entry : ScopeEntry → Fallible CertificateError (Unit {0})
validate_scope_entry e =
    if str_eq e.type "user"
    then throw_if (not (is_named e.address)) invalid_entry
    else if str_eq e.type "domain"
    then throw_if (not (is_named e.domain)) invalid_entry
    else if str_eq e.type "server"
    then throw_if (not (is_named e.server) && not (is_named e.domain)) invalid_entry
    else throw invalid_entry

unfoldable pub validate_entries : List ScopeEntry → Fallible CertificateError (Unit {0})
unfolding validate_scope_entry
validate_entries [] = ok tt
validate_entries (e ∷ es) = do validate_scope_entry e; validate_entries es

abbrev pub entries_of : Option (List ScopeEntry) → List ScopeEntry
entries_of none = []
entries_of (some entries) = entries

unfoldable pub check_mode :
    String → List ScopeEntry → List ScopeEntry → Fallible CertificateError (Unit {0})
check_mode mode allow deny =
    if str_eq mode "unrestricted" || str_eq mode "none"
    then throw_if (ltb 0 (length allow) || ltb 0 (length deny)) entries_not_empty
    else if str_eq mode "restricted"
    then (throw_if (length allow == 0) needs_allow >> throw_if (ltb 0 (length deny)) forbids_deny)
    else if str_eq mode "denylist"
    then (throw_if (length deny == 0) needs_deny >> throw_if (ltb 0 (length allow)) forbids_allow)
    else throw invalid_mode

abbrev pub check_stage : Bool → Option Quantity → Fallible CertificateError (Unit {0})
check_stage allow_delivery_stage none = ok tt
check_stage allow_delivery_stage (some stage) = do
  throw_if (not allow_delivery_stage) stage_on_send
  throw_if (not (is_at_least 1 stage)) stage_not_positive

unfoldable pub validate_matcher : Bool → ScopeMatcher → Fallible CertificateError (Unit {0})
unfolding validate_rate_limits check_mode validate_entries
validate_matcher allow_delivery_stage m = do
  validate_rate_limits m.rate_limits
  check_mode m.mode (entries_of m.allow) (entries_of m.deny)
  throw_if
      (ltb max_scope_matcher_entries (length (entries_of m.allow) + length (entries_of m.deny)))
      too_many_entries
  validate_entries (entries_of m.allow)
  validate_entries (entries_of m.deny)
  check_stage allow_delivery_stage m.delivery_stage

unfoldable pub validate_resource : ScopeResource → Fallible CertificateError (Unit {0})
unfolding validate_rate_limits
validate_resource r = validate_rate_limits r.rate_limits

unfoldable pub validate_scope : Scope → Fallible CertificateError (Unit {0})
unfolding validate_matcher validate_resource
validate_scope s = do
  validate_matcher false s.send
  validate_matcher true s.receive
  validate_resource s.blocklist
  validate_resource s.keys
  validate_resource s.devices

module _ (date_parse : String → Option ℕ) where
  abbrev pub parsed_time : String → Fallible CertificateError ℕ
  parsed_time text = elim (date_parse text) [ none ↦ throw unread_time | some t ↦ ok t ]

  unfoldable pub check_lifetime : DeviceCertificate → Fallible CertificateError (Unit {0})
  check_lifetime c = do
    issued ← parsed_time c.issued_at
    expires ← parsed_time c.expires_at
    throw_if (leb expires issued) not_after_issue
    throw_if (ltb max_device_certificate_lifetime_ms (expires - issued)) lifetime_exceeds_cap

  unfoldable pub validate_device_certificate :
      Bool → DeviceCertificate → Fallible CertificateError (Unit {0})
  unfolding check_lifetime validate_scope
  validate_device_certificate skip_signature_check c = do
    throw_if (not (str_eq c.type "SEMP_DEVICE_CERTIFICATE")) wrong_type
    throw_if (str_eq c.version "") missing_field
    throw_if
        (str_eq c.device_id ""
          || str_eq c.device_public_key ""
          || str_eq c.account ""
          || str_eq c.issued_by "")
        missing_field
    throw_if (str_eq c.issued_at "" || str_eq c.expires_at "") missing_field
    check_lifetime c
    validate_scope c.scope
    throw_if (str_eq c.signature.algorithm "") missing_field
    throw_if (str_eq c.signature.key_id "") missing_field
    throw_if (not skip_signature_check && str_eq c.signature.value "") unsigned
