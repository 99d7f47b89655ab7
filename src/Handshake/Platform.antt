-- ===== src/Handshake/Platform.antt =====
-- What the handshake calls: cryptography, encodings and JSON (src/crypto, src/canonical and src/keys
-- over third-party packages), as one record of functions. `none` is a throw.
use semp_ts.Common.{
  String, Bool, Option, Fallible, throw, ◌>>=◌, Bytes, ◌++◌, ltb, length, take, drop, if◌then◌else◌,
}
use semp_ts.Handshake.Messages.{
  InitMessage, ResponseMessage, ConfirmMessage, AcceptedMessage, RejectedMessage,
}

pub record SessionKeys : Type 0 where
  pub enc_c2s : Bytes
  pub enc_s2c : Bytes
  pub mac_c2s : Bytes
  pub mac_s2c : Bytes
  pub env_mac : Bytes
  pub resumption : Option Bytes

pub record IdentityProofBlock : Type 0 where
  pub client_id : String
  pub client_identity : String
  pub client_long_term_key_id : String
  pub identity_signature : String

-- A text that parses has the fields of its message.
pub record Platform : Type 0 where
  pub parse_init : Bytes → Option InitMessage
  pub parse_confirm : Bytes → Option ConfirmMessage
  pub marshal_response : ResponseMessage → Bytes
  pub marshal_accepted : AcceptedMessage → Bytes
  pub marshal_rejected : RejectedMessage → Bytes
  pub sign_response : Bytes → ResponseMessage → String
  pub sign_accepted : Bytes → AcceptedMessage → String
  pub sign_rejected : Bytes → RejectedMessage → String
  pub base64_encode : Bytes → String
  pub base64_decode : String → Bytes
  pub text_bytes : String → Bytes
  pub sha256 : Bytes → Bytes
  pub hex_sha256 : Bytes → String
  pub fingerprint : Bytes → String
  pub public_key_from_seed : Bytes → Bytes
  pub x25519_public_key : Bytes → Bytes
  pub x25519_agree : Bytes → Bytes → Option Bytes
  pub hybrid_encapsulate : Bytes → Bytes → Option (Bytes × Bytes)
  pub derive_session_keys : Bytes → Bytes → Bytes → SessionKeys
  pub aead_open : Bytes → Bytes → Bytes → Bytes → Fallible String Bytes
  pub parse_block : Bytes → Fallible String IdentityProofBlock
  pub ed25519_verify : Bytes → Bytes → Bytes → Bool

-- src/handshake/confirm.ts
unfoldable pub confirmation_hash : Platform → Bytes → Bytes → Bytes
confirmation_hash p message1 message2 = p.sha256 (message1 ++ message2)

-- src/handshake/identity.ts: the client's proof, under the key of the session. A throw has its reason.
unfoldable pub open_identity_proof :
    Platform → String → Bytes → String → Fallible String IdentityProofBlock
open_identity_proof p identity_proof enc_c2s session_id =
    let wrapped = p.base64_decode identity_proof in
    if ltb (length wrapped) 12
    then throw "openIdentityProof: identity_proof too short"
    else (p.aead_open enc_c2s (take 12 wrapped) (drop 12 wrapped) (p.text_bytes session_id)
        >>= λ pt. p.parse_block pt)
