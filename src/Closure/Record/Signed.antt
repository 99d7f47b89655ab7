-- ===== src/Closure/Record/Signed.antt =====
-- A record that has been signed is accepted by the verifier.
use text.Mathlib.TextEquality.{eq_iff}
use semp_ts.Common.{
  ℕ, String, ◌≡◌, ◌≢◌, refl, sym, ap, Bool, true, false, Option, some, str_eq, Fallible, ok, throw,
  throw_if, then_parts, ok-injective, subst, Bytes, Bool-cases, inl, inr,
}
use semp_ts.Keys.Signed.{Signing, SignedError, sign_signed_doc, verify_signed_doc, signing_input}
use semp_ts.Keys.Signed.Roundtrip.{
  IsKeyPair, IsSettable, sign_signed_doc_parts, verify_signed_doc-sign_signed_doc,
}
use semp_ts.Closure.Record.{
  ClosureRecord, validate_closure_record, check_fields, check_signature, pre_sign,
  sign_closure_record, verify_closure_record, empty_device_key_id, account_closure_prefix,
  closure_document, or_not_signed,
}

module _ (date_parse : String → Option ℕ) (g : Signing) (canonical_marshal : ClosureRecord → Bytes)
    (seed public_key : Bytes) (pair : IsKeyPair g seed public_key)
    (written : (m : Bytes) → g.base64_encode (g.ed25519_sign seed m) ≢ "") where
  closure-IsSettable : IsSettable (closure_document canonical_marshal)
  closure-IsSettable = record {
    value_at-set_path = λ value d. refl;
    set_path-set_path = λ value first d. refl;
  }

  valid-fields :
      (skip : Bool) (r : ClosureRecord)
      → validate_closure_record date_parse skip r ≡ ok tt
      → check_fields date_parse r ≡ ok tt
  unfolding validate_closure_record
  valid-fields skip r h =
      (then_parts (check_fields date_parse r) (check_signature date_parse skip r.signature) h).0

  named-str_eq : (s : String) → s ≢ "" → str_eq s "" ≡ false
  named-str_eq s h = elim (Bool-cases (str_eq s "")) [
    | inl e ↦ absurd (h ((eq_iff s "").0 e))
    | inr e ↦ e
  ]

  or_not_signed-ok :
      {A : Type 0} (answer : Fallible SignedError A) {a : A}
      → or_not_signed answer ≡ ok a
      → answer ≡ ok a
  or_not_signed-ok (throw e) h = cc
  or_not_signed-ok (ok b) h = ap ok (ok-injective h)

  -- The fields are those of the record that was signed.
  signed-valid :
      (key_id value : String) (r : ClosureRecord)
      → str_eq value "" ≡ false
      → check_fields date_parse r ≡ ok tt
      → validate_closure_record date_parse false
          ((closure_document canonical_marshal).set_path value (pre_sign date_parse key_id r))
        ≡ ok tt
  unfolding validate_closure_record check_fields check_signature pre_sign
  signed-valid key_id value r full h = rw h (rw full refl)

  accepted :
      (s : ClosureRecord) (value : String)
      → s.signature.value ≡ some value
      → str_eq value "" ≡ false
      → validate_closure_record date_parse false s ≡ ok tt
      → verify_signed_doc g (closure_document canonical_marshal) account_closure_prefix public_key s
        ≡ ok true
      → verify_closure_record date_parse g canonical_marshal public_key s ≡ ok true
  unfolding verify_closure_record
  accepted s value e full valid verified = rw valid (rw verified (rw (e, full) refl))

  -- A record that `signClosureRecord` returns verifies under the public key of the seed, where the
  -- signatures of the seed have their length and verify under that key, base64 decodes the text that it
  -- makes of a signature, and that text is not empty.
  pub verify-sign :
      (key_id : String) (r signed : ClosureRecord)
      → sign_closure_record date_parse g canonical_marshal seed key_id r ≡ ok signed
      → verify_closure_record date_parse g canonical_marshal public_key signed ≡ ok true
  unfolding sign_closure_record
  verify-sign key_id r signed h =
      let pre = pre_sign date_parse key_id r in
      let doc = closure_document canonical_marshal in
      let (_, h1) = then_parts (throw_if (str_eq key_id "") empty_device_key_id) _ h in
      let (valid, h2) = then_parts (validate_closure_record date_parse true r) _ h1 in
      let made = or_not_signed-ok (sign_signed_doc g doc account_closure_prefix seed pre) h2 in
      let same =
        sign_signed_doc_parts g seed public_key pair doc closure-IsSettable account_closure_prefix
          pre made in
      let sig = g.ed25519_sign seed (signing_input g doc account_closure_prefix pre) in
      let full = named-str_eq (g.base64_encode sig) (written _) in
      accepted signed (g.base64_encode sig) (sym (ap (λ s. s.signature.value) same)) full
        (subst (λ s. validate_closure_record date_parse false s ≡ ok tt) same
          (signed-valid key_id (g.base64_encode sig) r full (valid-fields true r valid)))
        (verify_signed_doc-sign_signed_doc g seed public_key pair doc closure-IsSettable
          account_closure_prefix pre made)
