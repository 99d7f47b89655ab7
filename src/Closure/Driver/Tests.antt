-- ===== src/Closure/Driver/Tests.antt =====
-- Requests of two users, with the theorems at them.
use semp_ts.Common.{
  ℕ, zero, suc, String, ◌≡◌, ◌≢◌, refl, true, false, Option, none, some, [], ◌∷◌, map, str_eq,
  if◌then◌else◌, ok, arith, Bytes,
}
use semp_ts.Closure.Record.{
  ClosureRecord, whole, validate_closure_record, check_fields, check_grace, check_signature,
  sign_closure_record, verify_closure_record, finalization_at, pre_sign,
}
use semp_ts.Keys.Signed.{Signing, sign, sign_signed_doc}
use semp_ts.Keys.Signed.Roundtrip.{IsKeyPair}
use semp_ts.Closure.Record.Signed.{verify-sign}
use semp_ts.Closure.Store.{ClosureStore, empty_store}
use semp_ts.Closure.Driver.{tick, recipient_policy, silent}
use semp_ts.Closure.Driver.Accounts.{IsGood}
use semp_ts.Closure.Driver.Due.{due, close_all, report, tick_lem}
use semp_ts.Closure.Driver.Family.{submitted, ticked, pruned, view, run, account_run}
use semp_ts.Closure.Driver.Refinement.{step-IsGood, view-run}
use semp_ts.Closure.Driver.Ends.{run-closes, run-open}

abbrev new_year : ℕ
new_year = 1767225600000

abbrev date_parse : String → Option ℕ
date_parse text = if str_eq text "2026-01-01T00:00:00Z" then some new_year else none

abbrev request_of : String → ClosureRecord
request_of user = record {
  type = "SEMP_ACCOUNT_CLOSURE";
  step = "request";
  version = some "1.0.0";
  user_id = some user;
  requested_at = some "2026-01-01T00:00:00Z";
  grace_period_seconds = whole 604800;
  issued_by = some "device-1";
  signature = record { algorithm = some "ed25519"; key_id = some "device-1"; value = some "c2ln" };
}

abbrev zeros : ℕ → Bytes
zeros zero = []
zeros (suc n) = 0 ∷ zeros n

-- Signatures and keys of constant bytes, and a base64 with one text.
abbrev signing : Signing
signing = record {
  ed25519_sign = λ seed m. zeros 64;
  ed25519_verify = λ key sig m. true;
  text_bytes = λ text. [];
  base64_encode = λ b. "c2ln";
  base64_decode = λ text. zeros 64;
}

alice_valid : validate_closure_record date_parse false (request_of "alice@a.example") ≡ ok tt
unfolding validate_closure_record check_fields check_grace check_signature
alice_valid = refl

alice_time : finalization_at date_parse (request_of "alice@a.example") ≡ ok 1767830400000
unfolding finalization_at
alice_time = refl

empty-IsGood : IsGood date_parse empty_store
empty-IsGood = record { pending_map = tt; finalized_map = tt; indexed = tt; requests = tt }

abbrev one_pending : ClosureStore
one_pending = run date_parse (submitted (request_of "alice@a.example") ∷ []) empty_store

one_pending-IsGood : IsGood date_parse one_pending
unfolding run
one_pending-IsGood =
    step-IsGood date_parse (submitted (request_of "alice@a.example")) empty_store empty-IsGood

abbrev canonical_marshal : ClosureRecord → Bytes
canonical_marshal r = []

zeros-IsKeyPair : IsKeyPair signing (zeros 32) (zeros 32)
zeros-IsKeyPair = record {
  key_length = refl;
  signature_length = λ m. refl;
  verifies = λ m. refl;
  decodes = λ m. refl;
}

some_text : (m : Bytes) → signing.base64_encode (signing.ed25519_sign (zeros 32) m) ≢ ""
some_text m e = cc

abbrev signed_request : ClosureRecord
signed_request = request_of "bob@b.example"

signs_request :
    sign_closure_record date_parse signing canonical_marshal (zeros 32) "device-1" signed_request
    ≡ ok signed_request
unfolding sign_closure_record validate_closure_record check_fields check_grace check_signature
    pre_sign sign_signed_doc sign
signs_request = refl

verify-sign_example :
    verify_closure_record date_parse signing canonical_marshal (zeros 32) signed_request ≡ ok true
verify-sign_example =
    verify-sign date_parse signing canonical_marshal (zeros 32) (zeros 32) zeros-IsKeyPair some_text
      "device-1" signed_request signed_request signs_request

tick_lem_example : tick date_parse 1767830400000 one_pending ≡ (
  close_all 1767830400000 (due date_parse 1767830400000 one_pending) one_pending,
  ok (map (report 1767830400000) (due date_parse 1767830400000 one_pending)),
)
tick_lem_example = tick_lem date_parse 1767830400000 one_pending one_pending-IsGood

view-run_example :
    view "alice@a.example" (
      run date_parse
        (submitted (request_of "bob@b.example")
          ∷ ticked 1767830400000
          ∷ pruned 0 1767830400001
          ∷ [])
        one_pending)
    ≡ account_run date_parse "alice@a.example"
        (submitted (request_of "bob@b.example")
          ∷ ticked 1767830400000
          ∷ pruned 0 1767830400001
          ∷ [])
        (view "alice@a.example" one_pending)
view-run_example =
    view-run date_parse "alice@a.example"
      (submitted (request_of "bob@b.example") ∷ ticked 1767830400000 ∷ pruned 0 1767830400001 ∷ [])
      one_pending one_pending-IsGood

run-closes_example :
    recipient_policy true "alice@a.example" (
      run date_parse
        (submitted (request_of "alice@a.example")
          ∷ ticked 1767225600001
          ∷ ticked 1767830400000
          ∷ [])
        empty_store)
    ≡ some silent
run-closes_example =
    run-closes date_parse true "alice@a.example" (request_of "alice@a.example")
      (ticked 1767225600001 ∷ []) empty_store 1767830400000 1767830400000 empty-IsGood alice_valid
      refl refl refl (refl, tt) alice_time (omega arith)

run-open_example :
    recipient_policy false "bob@b.example"
      (run date_parse (ticked 1767830400000 ∷ pruned 0 1767830400001 ∷ []) empty_store)
    ≡ none
run-open_example =
    run-open date_parse false "bob@b.example" (ticked 1767830400000 ∷ pruned 0 1767830400001 ∷ [])
      empty_store empty-IsGood refl refl (refl, (refl, tt))
