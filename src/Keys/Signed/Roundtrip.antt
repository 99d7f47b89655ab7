-- ===== src/Keys/Signed/Roundtrip.antt =====
-- A document that is signed verifies under the seed's public key.
use semp_ts.Common.{
  String, ◌≡◌, sym, ap, ◌∙◌, true, some, ◌++◌, length, ◌==◌, ok, throw_if, bind_parts, then_parts,
  ok-injective, subst, Bytes, arith,
}
use semp_ts.Keys.Signed.{
  Signing, Document, sign, verify, signature_size, public_key_size, sign_signed_doc,
  verify_signed_doc, signing_input, wrong_seed_length,
}

-- What Ed25519 and base64 promise: a key's signature has its length and verifies under the seed's
-- public key, and base64 decodes the text that it has made of it.
pub record IsKeyPair (g : Signing) (seed public_key : Bytes) : Type 0 where
  pub key_length : length public_key ≡ public_key_size
  pub signature_length : (m : Bytes) → length (g.ed25519_sign seed m) ≡ signature_size
  pub verifies : (m : Bytes) → g.ed25519_verify public_key (g.ed25519_sign seed m) m ≡ true
  pub decodes :
      (m : Bytes)
      → g.base64_decode (g.base64_encode (g.ed25519_sign seed m)) ≡ g.ed25519_sign seed m

-- Setting a document's signature: the last value set is read back, and no other part is changed.
pub record IsSettable {D : Type 0} (doc : Document D) : Type 0 where
  pub value_at-set_path :
      (value : String) (d : D) → doc.value_at (doc.set_path value d) ≡ some value
  pub set_path-set_path :
      (value first : String) (d : D)
      → doc.set_path value (doc.set_path first d) ≡ doc.set_path value d

module _ (g : Signing) (seed public_key : Bytes) (pair : IsKeyPair g seed public_key) where
  verify-ed25519_sign : (m : Bytes) → verify g public_key (g.ed25519_sign seed m) m ≡ true
  unfolding verify
  verify-ed25519_sign m =
      let key : (length public_key == public_key_size) ≡ true = ground (arith, pair.key_length) in
      let size : (length (g.ed25519_sign seed m) == signature_size) ≡ true =
        ground (arith, pair.signature_length m) in
      rw (key, size) (pair.verifies m)

  sign-is_signature :
      (m : Bytes) {sig : Bytes} → sign g seed m ≡ ok sig → sig ≡ g.ed25519_sign seed m
  unfolding sign
  sign-is_signature m h =
      let (_, last) = then_parts (throw_if _ wrong_seed_length) (ok (g.ed25519_sign seed m)) h in
      sym (ok-injective last)

  module _ {D : Type 0} (doc : Document D) (settable : IsSettable doc) (prefix : String) where
    -- The signed document is the given one with the signature's text.
    pub sign_signed_doc_parts :
        (d : D) {signed : D}
        → sign_signed_doc g doc prefix seed d ≡ ok signed
        → doc.set_path (g.base64_encode (g.ed25519_sign seed (signing_input g doc prefix d))) d
          ≡ signed
    unfolding sign_signed_doc
    sign_signed_doc_parts d h =
        let (sig, made, last) = bind_parts (sign g seed (signing_input g doc prefix d)) _ h in
        ap (λ s. doc.set_path (g.base64_encode s) d) (sym (sign-is_signature _ made))
        ∙ sym (settable.set_path-set_path (g.base64_encode sig) "" d)
        ∙ ok-injective last

    verify-value :
        (d : D)
        → let input = signing_input g doc prefix d in
          verify_signed_doc g doc prefix public_key
            (doc.set_path (g.base64_encode (g.ed25519_sign seed input)) d)
          ≡ ok true
    unfolding verify_signed_doc signing_input
    verify-value d =
        let input = g.text_bytes prefix ++ doc.canonical_marshal (doc.set_path "" d) in
        let text = g.base64_encode (g.ed25519_sign seed input) in
        rw (settable.value_at-set_path text d) (
          rw (settable.set_path-set_path "" text d, pair.decodes input)
            (ap ok (verify-ed25519_sign input)))

    pub verify_signed_doc-sign_signed_doc :
        (d : D) {signed : D}
        → sign_signed_doc g doc prefix seed d ≡ ok signed
        → verify_signed_doc g doc prefix public_key signed ≡ ok true
    verify_signed_doc-sign_signed_doc d h =
        subst (λ s. verify_signed_doc g doc prefix public_key s ≡ ok true)
          (sign_signed_doc_parts d h) (verify-value d)
