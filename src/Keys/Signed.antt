-- ===== src/Keys/Signed.antt =====
-- src/keys/signed.ts: signed documents, over src/keys/sign.ts. A document's JSON, which a deep copy
-- leaves as it is, is the type that the section takes, with what is read and set at the signature's
-- path; its canonical bytes, Ed25519 and base64 are parameters.
pub mod Roundtrip
use semp_ts.Common.{
  ℕ, String, Bool, false, not, ◌||◌, Option, none, some, ◌++◌, length, ◌==◌, if◌then◌else◌,
  Fallible, ok, throw, throw_if, ◌>>=◌, ◌>>◌, Bytes,
}

abbrev pub seed_size : ℕ
seed_size = 32

abbrev pub public_key_size : ℕ
public_key_size = 32

abbrev pub signature_size : ℕ
signature_size = 64

-- `ed25519_verify` is false where the library's function throws, and base64 is that of `Buffer`, whose
-- decoding does not throw.
pub record Signing : Type 0 where
  pub ed25519_sign : Bytes → Bytes → Bytes
  pub ed25519_verify : Bytes → Bytes → Bytes → Bool
  pub text_bytes : String → Bytes
  pub base64_encode : Bytes → String
  pub base64_decode : String → Bytes

pub data SignedError : Type 0 where
  wrong_seed_length not_a_string : SignedError

module _ (g : Signing) where
  unfoldable pub sign : Bytes → Bytes → Fallible SignedError Bytes
  sign seed message = do
    throw_if (not (length seed == seed_size)) wrong_seed_length
    ok (g.ed25519_sign seed message)

  unfoldable pub verify : Bytes → Bytes → Bytes → Bool
  verify public_key signature message =
      if not (length public_key == public_key_size) || not (length signature == signature_size)
      then false
      else g.ed25519_verify public_key signature message

-- A kind of document: its canonical bytes, and the value at the path of its signature, none where it is
-- no text.
pub record Document (D : Type 0) : Type 0 where
  pub canonical_marshal : D → Bytes
  pub value_at : D → Option String
  pub set_path : String → D → D

module _ (g : Signing) {D : Type 0} (doc : Document D) (prefix : String) where
  -- The bytes that are signed: the prefix, and the document with its signature blanked.
  unfoldable pub signing_input : D → Bytes
  signing_input d = g.text_bytes prefix ++ doc.canonical_marshal (doc.set_path "" d)

  unfoldable pub sign_signed_doc : Bytes → D → Fallible SignedError D
  unfolding signing_input
  sign_signed_doc seed d = do
    sig ← sign g seed (signing_input d)
    ok (doc.set_path (g.base64_encode sig) (doc.set_path "" d))

  -- `pluckAndBlankPath` throws where the value is no text.
  abbrev pub verify_value : Bytes → D → Option String → Fallible SignedError Bool
  verify_value public_key d none = throw not_a_string
  verify_value public_key d (some value) =
      ok (verify g public_key (g.base64_decode value) (signing_input d))

  unfoldable pub verify_signed_doc : Bytes → D → Fallible SignedError Bool
  unfolding signing_input
  verify_signed_doc public_key d = verify_value public_key d (doc.value_at d)
