-- ===== src/Handshake/Server.antt =====
-- src/handshake/server_state.ts: HandshakeServer. The random draws and the caller's callbacks are
-- arguments; a callback that throws has its message as the reason. The private key's buffer, which the
-- code overwrites with zeros when it drops it, is not shared here.
pub mod Init
pub mod Confirm
pub mod Accepted
pub mod Lifetime
pub mod Sessions
mod Tests
use semp_ts.Common.{
  ℕ, String, Bool, true, false, Option, none, some, List, [], ◌∷◌, ◌++◌, str_eq, not, ◌&&◌, ◌||◌,
  if◌then◌else◌, Fallible, ok, throw, throw_if, ◌>>=◌, ◌>>◌, Bytes, constant_time_equal,
}
use semp_ts.Handshake.Messages.{
  Extensions, KeyRef, ServerIdentityProof, InitMessage, ResponseMessage, ConfirmMessage,
  ResumptionTicket, AcceptedMessage, RejectedMessage, build_response, build_accepted,
  build_rejected, or_none,
}
use semp_ts.Handshake.Platform.{
  SessionKeys, IdentityProofBlock, Platform, confirmation_hash, open_identity_proof,
}

pub record IdentityProofVerdict : Type 0 where
  pub accepts : Bool
  pub reason_code : Option String
  pub reason : Option String

pub record ServerConfig : Type 0 where
  pub server_domain_signing_seed : Bytes
  pub domain : String
  pub supported_suites : List String
  pub identity_proof_signature : KeyRef → String → String → String
  pub verify_identity_proof :
      Option (String → SessionKeys → Option IdentityProofBlock → IdentityProofVerdict)
  pub lookup_client_identity_key : Option (String → String → Fallible String Bytes)
  pub permissions : List String
  pub session_ttl : ℕ
  pub resumption_ticket : Option (SessionKeys → ResumptionTicket)
  pub server_ephemeral_priv : Option Bytes
  pub server_hybrid_randomness : Option Bytes
  pub server_nonce : Option Bytes
  pub accepted_extensions : Option Extensions

pub record HandshakeServerSession : Type 0 where
  pub session_id : String
  pub session_ttl : ℕ
  pub permissions : List String
  pub keys : SessionKeys
  pub server_identity_proof_key_id : String
  pub server_identity_proof_signature : String
  pub extensions : Extensions
  pub resumption_ticket : Option ResumptionTicket
  pub client_identity : String
  pub client_long_term_key_id : String

pub record HandshakeServer : Type 0 where
  pub session_id : String
  pub server_eph_priv : Option Bytes
  pub server_nonce : Option Bytes
  pub init_canonical : Option Bytes
  pub resp_canonical : Option Bytes
  pub session_keys : Option SessionKeys
  pub server_id_proof : Option ServerIdentityProof
  pub final_session : Option HandshakeServerSession
  pub client_identity_value : Option String
  pub client_long_term_key_id_value : Option String

abbrev pub fresh_server : HandshakeServer
fresh_server = record {
  session_id = "";
  server_eph_priv = none;
  server_nonce = none;
  init_canonical = none;
  resp_canonical = none;
  session_keys = none;
  server_id_proof = none;
  final_session = none;
  client_identity_value = none;
  client_long_term_key_id_value = none;
}

pub data ServerError : Type 0 where
  no_suites empty_seed empty_domain : ServerError
  init_twice init_not_json init_mismatch crypto_failed : ServerError
  confirm_before_init confirm_not_json confirm_mismatch not_established : ServerError
  rejected : String → Option String → Bytes → ServerError

-- A value that is there is not empty.
abbrev pub is_nil {ℓ} : {A : Type ℓ} → List A → Bool
is_nil [] = true
is_nil (x ∷ xs) = false

unfoldable pub new_server : ServerConfig → Fallible ServerError HandshakeServer
new_server cfg = do
  throw_if (is_nil cfg.supported_suites) no_suites
  throw_if (is_nil cfg.server_domain_signing_seed) empty_seed
  throw_if (str_eq cfg.domain "") empty_domain
  ok fresh_server

-- offered.includes(s)
unfoldable pub offers : String → List String → Bool
offers s [] = false
offers s (o ∷ os) = str_eq o s || offers s os

unfoldable pub pick_suite : List String → List String → Option String
unfolding offers
pick_suite offered [] = none
pick_suite offered (s ∷ ss) =
    let rest = pick_suite offered ss in if offers s offered then some s else rest

-- `a ?? b`
abbrev pub or_value {ℓ} : {A : Type ℓ} → Option A → A → A
or_value none b = b
or_value (some a) b = a

-- What is drawn at random in a handshake, where the configuration does not say.
pub record Draws : Type 0 where
  pub session_id : String
  pub nonce : Bytes
  pub private_key : Bytes
  pub randomness : Bytes

abbrev pub Answer : Type 0
Answer = HandshakeServer × Fallible ServerError Bytes

-- The CONFIRM, its proof if it has one, and what it was checked against.
pub record Progress : Type 0 where
  pub init : Bytes
  pub resp : Bytes
  pub keys : SessionKeys
  pub proof : ServerIdentityProof

-- All four, or none where one of them is null.
abbrev pub progress :
    Option Bytes → Option Bytes → Option SessionKeys → Option ServerIdentityProof → Option Progress
progress none resp keys proof = none
progress (some init) none keys proof = none
progress (some init) (some resp) none proof = none
progress (some init) (some resp) (some keys) none = none
progress (some init) (some resp) (some keys) (some proof) =
    some (record { init = init; resp = resp; keys = keys; proof = proof })

unfoldable pub progress_of : HandshakeServer → Option Progress
progress_of w = progress w.init_canonical w.resp_canonical w.session_keys w.server_id_proof

abbrev pub established : Option HandshakeServerSession → Fallible ServerError HandshakeServerSession
established none = throw not_established
established (some s) = ok s

unfoldable pub session : HandshakeServer → Fallible ServerError HandshakeServerSession
session w = established w.final_session

unfoldable pub client_identity : HandshakeServer → String
client_identity w = or_value w.client_identity_value ""

unfoldable pub client_long_term_key_id : HandshakeServer → String
client_long_term_key_id w = or_value w.client_long_term_key_id_value ""

unfoldable pub erase : HandshakeServer → HandshakeServer
erase w = record w { server_eph_priv = none; session_keys = none }

module _ (p : Platform) (cfg : ServerConfig) where
  unfoldable pub build_rejected_signed : String → String → Option String → Bytes
  build_rejected_signed session_id code reason =
      p.marshal_rejected (
        build_rejected (p.sign_rejected cfg.server_domain_signing_seed) session_id code reason none)

  -- The error of a rejection, with the bytes to send.
  abbrev pub reject : HandshakeServer → String → Option String → Option String → ServerError
  reject w code sent reason = rejected code reason (build_rejected_signed w.session_id code sent)
