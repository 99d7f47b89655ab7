-- ===== src/Handshake/Server/Init.antt =====
-- src/handshake/server_state.ts: onInit.
use semp_ts.Common.{
  String, Bool, Option, none, some, [], str_eq, not, ◌||◌, if◌then◌else◌, ok, throw, Bytes,
}
use semp_ts.Handshake.Messages.{KeyRef, ServerIdentityProof, InitMessage, build_response}
use semp_ts.Handshake.Platform.{Platform}
use semp_ts.Handshake.Server.{
  ServerConfig, HandshakeServer, pick_suite, or_value, Draws, Answer, reject, init_twice,
  init_not_json, init_mismatch, crypto_failed,
}

module _ (p : Platform) (cfg : ServerConfig) where
  -- The end of `onInit`, with the suite, the server's ephemeral key and the shared secret.
  unfoldable pub respond :
      InitMessage → String → String → Bytes → Bytes → Bytes → HandshakeServer → Answer
  respond init suite key_id eph_pub shared nonce w =
      let client_nonce = p.base64_decode init.nonce in
      let key : KeyRef = record {
        algorithm = suite;
        key = p.base64_encode eph_pub;
        key_id = key_id;
      } in
      let proof : ServerIdentityProof = record {
        domain = cfg.domain;
        key_id = p.fingerprint (p.public_key_from_seed cfg.server_domain_signing_seed);
        signature = cfg.identity_proof_signature key init.nonce (p.base64_encode nonce);
      } in
      let resp = p.marshal_response (
        build_response (p.sign_response cfg.server_domain_signing_seed) w.session_id init.nonce
          (p.base64_encode nonce) key proof
          (record { encryption_algorithm = suite; extensions = []; max_envelope_size = none })
          none) in
      (
        record w {
          session_keys = some (p.derive_session_keys shared client_nonce nonce);
          server_id_proof = some proof;
          resp_canonical = some resp;
        },
        ok resp,
      )

  abbrev pub with_hybrid :
      InitMessage → String → Bytes → HandshakeServer → Option (Bytes × Bytes) → Answer
  with_hybrid init suite nonce w none = (w, throw crypto_failed)
  with_hybrid init suite nonce w (some (ciphertext, shared)) =
      respond init suite (p.hex_sha256 ciphertext) ciphertext shared nonce w

  abbrev pub with_shared :
      InitMessage → String → Bytes → Bytes → HandshakeServer → Option Bytes → Answer
  with_shared init suite nonce priv w none = (w, throw crypto_failed)
  with_shared init suite nonce priv w (some shared) =
      respond init suite (p.fingerprint (p.x25519_public_key priv)) (p.x25519_public_key priv)
        shared nonce w

  abbrev pub is_hybrid : String → Bool
  is_hybrid suite = str_eq suite "pq-kyber768-x25519"

  abbrev pub with_suite : Draws → InitMessage → HandshakeServer → Option String → Answer
  with_suite draws init w none = (w, throw (reject p cfg w "version_unsupported" none none))
  with_suite draws init w (some suite) =
      let client_pub = p.base64_decode init.client_ephemeral_key.key in
      let nonce = or_value cfg.server_nonce draws.nonce in
      let priv = or_value cfg.server_ephemeral_priv draws.private_key in
      if is_hybrid suite
      then with_hybrid init suite nonce (record w { server_nonce = some nonce })
          (p.hybrid_encapsulate client_pub (or_value cfg.server_hybrid_randomness draws.randomness))
      else with_shared init suite nonce priv
          (record w { server_nonce = some nonce; server_eph_priv = some priv })
          (p.x25519_agree priv client_pub)

  abbrev pub with_init : Draws → Bytes → HandshakeServer → Option InitMessage → Answer
  with_init draws received w none = (w, throw init_not_json)
  with_init draws received w (some init) =
      if not (str_eq init.type "SEMP_HANDSHAKE") || not (str_eq init.step "init")
      then (w, throw init_mismatch)
      else with_suite draws init
          (record w { init_canonical = some received; session_id = draws.session_id })
          (pick_suite init.capabilities.encryption_algorithms cfg.supported_suites)

  abbrev pub first_init : Draws → Bytes → HandshakeServer → Option Bytes → Answer
  first_init draws received w (some init) = (w, throw init_twice)
  first_init draws received w none = with_init draws received w (p.parse_init received)

  unfoldable pub on_init : Draws → Bytes → HandshakeServer → Answer
  unfolding respond pick_suite
  on_init draws received w = first_init draws received w w.init_canonical
