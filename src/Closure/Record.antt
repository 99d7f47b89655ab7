-- ===== src/Closure/Record.antt =====
-- src/closure/closure.ts: the closure record, its validation and its signature. A field that the
-- validation tests for its type is an `Option`, none where the value is no text, and a grace period
-- is one of three kinds of number. `Date.parse`, the record's canonical bytes and the primitives of the
-- signature are parameters.
pub mod Signed
use semp_ts.Common.{
  ℕ, ◌+◌, ◌*◌, String, Bool, true, false, ◌&&◌, ◌||◌, not, Option, none, some, str_eq, leb, ltb,
  if◌then◌else◌, Fallible, ok, throw, throw_if, ◌>>=◌, ◌>>◌, Bytes,
}
use semp_ts.Keys.Signed.{Signing, SignedError, Document, sign_signed_doc, verify_signed_doc}

pub data Grace : Type 0 where
  whole : ℕ → Grace
  negative fractional : Grace

pub record ClosureSignature : Type 0 where
  pub algorithm : Option String
  pub key_id : Option String
  pub value : Option String

pub record ClosureRecord : Type 0 where
  pub type : String
  pub step : String
  pub version : Option String
  pub user_id : Option String
  pub requested_at : Option String
  pub grace_period_seconds : Grace
  pub issued_by : Option String
  pub signature : ClosureSignature

pub data ClosureError : Type 0 where
  wrong_type wrong_step missing_version missing_user_id missing_requested_at : ClosureError
  unread_requested_at missing_issued_by grace_not_integer grace_too_short : ClosureError
  grace_too_long missing_algorithm missing_key_id value_not_text unsigned : ClosureError
  empty_device_key_id : ClosureError
  not_signed : SignedError → ClosureError

abbrev pub min_grace_period_seconds : ℕ
min_grace_period_seconds = 7 * 24 * 60 * 60

abbrev pub max_grace_period_seconds : ℕ
max_grace_period_seconds = 90 * 24 * 60 * 60

-- Not a text, or empty.
abbrev pub is_blank : Option String → Bool
is_blank none = true
is_blank (some text) = str_eq text ""

abbrev pub is_none : Option String → Bool
is_none none = true
is_none (some text) = false

abbrev pub text_of : Option String → String
text_of none = ""
text_of (some text) = text

unfoldable pub check_grace : Grace → Fallible ClosureError (Unit {0})
check_grace fractional = throw grace_not_integer
check_grace negative = throw grace_too_short
check_grace (whole seconds) = do
  throw_if (ltb seconds min_grace_period_seconds) grace_too_short
  throw_if (ltb max_grace_period_seconds seconds) grace_too_long

abbrev pub is_unread : Option ℕ → Bool
is_unread none = true
is_unread (some t) = false

-- `ts + grace * 1000`; what is not a whole period never reaches this on a validated request.
abbrev pub grace_of : Grace → ℕ
grace_of (whole seconds) = seconds
grace_of negative = 0
grace_of fractional = 0

abbrev pub after_grace : Grace → Option ℕ → Fallible ClosureError ℕ
after_grace grace none = throw unread_requested_at
after_grace grace (some ts) = ok (ts + grace_of grace * 1000)

abbrev pub account_closure_prefix : String
account_closure_prefix = "SEMP-ACCOUNT-CLOSURE:"

-- "signature.value" in a record.
abbrev pub closure_document : (ClosureRecord → Bytes) → Document ClosureRecord
closure_document canonical_marshal = record {
  canonical_marshal = canonical_marshal;
  value_at = λ r. r.signature.value;
  set_path = λ value r. record r { signature = record r.signature { value = some value } };
}

abbrev pub or_not_signed {ℓ} : {A : Type ℓ} → Fallible SignedError A → Fallible ClosureError A
or_not_signed (throw e) = throw (not_signed e)
or_not_signed (ok a) = ok a

module _ (date_parse : String → Option ℕ) where
  -- The tests before those of the signature.
  unfoldable pub check_fields : ClosureRecord → Fallible ClosureError (Unit {0})
  unfolding check_grace
  check_fields r = do
    throw_if (not (str_eq r.type "SEMP_ACCOUNT_CLOSURE")) wrong_type
    throw_if (not (str_eq r.step "request") && not (str_eq r.step "cancel")) wrong_step
    throw_if (is_blank r.version) missing_version
    throw_if (is_blank r.user_id) missing_user_id
    throw_if (is_blank r.requested_at) missing_requested_at
    throw_if (is_unread (date_parse (text_of r.requested_at))) unread_requested_at
    throw_if (is_blank r.issued_by) missing_issued_by
    if str_eq r.step "request" then check_grace r.grace_period_seconds else ok tt

  unfoldable pub check_signature : Bool → ClosureSignature → Fallible ClosureError (Unit {0})
  check_signature skip_signature_check signature = do
    throw_if (is_none signature.algorithm) missing_algorithm
    throw_if (is_none signature.key_id) missing_key_id
    throw_if (is_none signature.value) value_not_text
    throw_if (not skip_signature_check && str_eq (text_of signature.value) "") unsigned

  unfoldable pub validate_closure_record : Bool → ClosureRecord → Fallible ClosureError (Unit {0})
  validate_closure_record skip_signature_check r = do
    check_fields r
    check_signature skip_signature_check r.signature

  unfoldable pub finalization_at : ClosureRecord → Fallible ClosureError ℕ
  finalization_at r = after_grace r.grace_period_seconds (date_parse (text_of r.requested_at))

  unfoldable pub is_finalizable : ClosureRecord → ℕ → Fallible ClosureError Bool
  is_finalizable r now =
      if str_eq r.step "request" then (finalization_at r >>= λ at. ok (leb at now)) else ok false

  -- The record with the signature block that is signed over.
  unfoldable pub pre_sign : String → ClosureRecord → ClosureRecord
  pre_sign device_key_id r = record r {
    signature = record { algorithm = some "ed25519"; key_id = some device_key_id; value = some "" };
  }

  module _ (g : Signing) (canonical_marshal : ClosureRecord → Bytes) where
    unfoldable pub sign_closure_record :
        Bytes → String → ClosureRecord → Fallible ClosureError ClosureRecord
    unfolding pre_sign
    sign_closure_record seed device_key_id r = do
      throw_if (str_eq device_key_id "") empty_device_key_id
      validate_closure_record true r
      or_not_signed (
          sign_signed_doc g (closure_document canonical_marshal) account_closure_prefix seed
            (pre_sign device_key_id r))

    unfoldable pub verify_closure_record : Bytes → ClosureRecord → Fallible ClosureError Bool
    verify_closure_record device_pub r = do
      validate_closure_record false r
      if str_eq (text_of r.signature.value) ""
          then ok false
          else or_not_signed (
              verify_signed_doc g (closure_document canonical_marshal) account_closure_prefix
                device_pub r)
