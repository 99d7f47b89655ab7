-- ===== src/Handshake/Messages.antt =====
-- src/handshake/messages.ts: the messages of a handshake, as they are built. The signature over a
-- message's canonical form, with the signature field empty, is a parameter. Values of unknown shape
-- are their JSON texts.
use semp_ts.Common.{ℕ, String, Option, none, some, List, []}

abbrev pub Extensions : Type 0
Extensions = List (String × String)

pub record KeyRef : Type 0 where
  pub algorithm : String
  pub key : String
  pub key_id : String

pub record Capabilities : Type 0 where
  pub encryption_algorithms : List String
  pub extensions : List String

pub record Negotiated : Type 0 where
  pub encryption_algorithm : String
  pub extensions : List String
  pub max_envelope_size : Option ℕ

pub record ServerIdentityProof : Type 0 where
  pub domain : String
  pub key_id : String
  pub signature : String

pub record InitMessage : Type 0 where
  pub type : String
  pub step : String
  pub party : String
  pub version : String
  pub nonce : String
  pub transport : String
  pub client_ephemeral_key : KeyRef
  pub capabilities : Capabilities
  pub extensions : Extensions

pub record ResponseMessage : Type 0 where
  pub type : String
  pub step : String
  pub party : String
  pub version : String
  pub session_id : String
  pub client_nonce : String
  pub server_nonce : String
  pub server_ephemeral_key : KeyRef
  pub server_identity_proof : ServerIdentityProof
  pub negotiated : Negotiated
  pub server_signature : String
  pub extensions : Extensions

pub record ConfirmMessage : Type 0 where
  pub type : String
  pub step : String
  pub party : String
  pub version : String
  pub session_id : String
  pub confirmation_hash : String
  pub identity_proof : String
  pub extensions : Extensions

pub record ResumptionTicket : Type 0 where
  pub value : String
  pub expires_at : String

pub record AcceptedMessage : Type 0 where
  pub type : String
  pub step : String
  pub party : String
  pub version : String
  pub session_id : String
  pub session_ttl : ℕ
  pub permissions : List String
  pub resumption_ticket : Option ResumptionTicket
  pub server_signature : String
  pub extensions : Extensions

pub record RejectedMessage : Type 0 where
  pub type : String
  pub step : String
  pub party : String
  pub version : String
  pub session_id : String
  pub reason_code : String
  pub reason : Option String
  pub server_signature : String
  pub extensions : Extensions

abbrev pub handshake_version : String
handshake_version = "1.0.0"

-- `input.extensions ?? {}`
abbrev pub or_none : Option Extensions → Extensions
or_none none = []
or_none (some extensions) = extensions

unfoldable pub build_init :
    String → String → KeyRef → Capabilities → Option Extensions → InitMessage
build_init nonce transport client_ephemeral_key capabilities extensions = record {
  type = "SEMP_HANDSHAKE";
  step = "init";
  party = "client";
  version = handshake_version;
  nonce = nonce;
  transport = transport;
  client_ephemeral_key = client_ephemeral_key;
  capabilities = capabilities;
  extensions = or_none extensions;
}

unfoldable pub build_confirm : String → String → String → Option Extensions → ConfirmMessage
build_confirm session_id confirmation_hash identity_proof extensions = record {
  type = "SEMP_HANDSHAKE";
  step = "confirm";
  party = "client";
  version = handshake_version;
  session_id = session_id;
  confirmation_hash = confirmation_hash;
  identity_proof = identity_proof;
  extensions = or_none extensions;
}

unfoldable pub build_response :
    (ResponseMessage → String)
    → String
    → String
    → String
    → KeyRef
    → ServerIdentityProof
    → Negotiated
    → Option Extensions
    → ResponseMessage
build_response sign session_id client_nonce server_nonce server_ephemeral_key proof negotiated
      extensions =
    let pre_sign : ResponseMessage = record {
      type = "SEMP_HANDSHAKE";
      step = "response";
      party = "server";
      version = handshake_version;
      session_id = session_id;
      client_nonce = client_nonce;
      server_nonce = server_nonce;
      server_ephemeral_key = server_ephemeral_key;
      server_identity_proof = proof;
      negotiated = negotiated;
      server_signature = "";
      extensions = or_none extensions;
    } in
    record pre_sign { server_signature = sign pre_sign }

unfoldable pub build_accepted :
    (AcceptedMessage → String)
    → String
    → ℕ
    → List String
    → Option ResumptionTicket
    → Option Extensions
    → AcceptedMessage
build_accepted sign session_id session_ttl permissions ticket extensions =
    let pre_sign : AcceptedMessage = record {
      type = "SEMP_HANDSHAKE";
      step = "accepted";
      party = "server";
      version = handshake_version;
      session_id = session_id;
      session_ttl = session_ttl;
      permissions = permissions;
      resumption_ticket = ticket;
      server_signature = "";
      extensions = or_none extensions;
    } in
    record pre_sign { server_signature = sign pre_sign }

unfoldable pub build_rejected :
    (RejectedMessage → String)
    → String
    → String
    → Option String
    → Option Extensions
    → RejectedMessage
build_rejected sign session_id reason_code reason extensions =
    let pre_sign : RejectedMessage = record {
      type = "SEMP_HANDSHAKE";
      step = "rejected";
      party = "server";
      version = handshake_version;
      session_id = session_id;
      reason_code = reason_code;
      reason = reason;
      server_signature = "";
      extensions = or_none extensions;
    } in
    record pre_sign { server_signature = sign pre_sign }
