-- ===== src/Handshake/Server/Tests.antt =====
-- A handshake on a platform of constants, with the theorems at it.
use semp_ts.Common.{
  String, ◌≡◌, refl, true, false, Option, none, some, List, [], ◌∷◌, str_eq, if◌then◌else◌, ok,
  throw, Bytes, constant_time_equal, diff_from,
}
use semp_ts.Handshake.Messages.{
  InitMessage, build_init, build_confirm, build_response, build_accepted,
}
use semp_ts.Handshake.Platform.{
  SessionKeys, IdentityProofBlock, Platform, confirmation_hash, open_identity_proof,
}
use semp_ts.Handshake.Server.{
  IdentityProofVerdict, ServerConfig, HandshakeServerSession, HandshakeServer, Draws, Progress,
  fresh_server, pick_suite, offers, session, client_identity, client_long_term_key_id, progress_of,
  erase,
}
use semp_ts.Handshake.Server.Init.{on_init, respond}
use semp_ts.Handshake.Server.Confirm.{
  on_confirm, checked, parse_confirm, check_identity, check_hash, session_of, accepted_bytes,
}
use semp_ts.Handshake.Server.Accepted.{IsAccepted, on_confirm-IsAccepted}
use semp_ts.Handshake.Server.Lifetime.{Call, inited, confirmed, erased, step, run, IsVouched}
use semp_ts.Handshake.Server.Sessions.{refusal, run-IsVouched, on_confirm_refused}

abbrev keys : SessionKeys
keys = record {
  enc_c2s = 1 ∷ [];
  enc_s2c = 2 ∷ [];
  mac_c2s = 3 ∷ [];
  mac_s2c = 4 ∷ [];
  env_mac = 5 ∷ [];
  resumption = none;
}

abbrev alice : IdentityProofBlock
alice = record {
  client_id = "c1";
  client_identity = "alice@a.example";
  client_long_term_key_id = "k1";
  identity_signature = "sig";
}

-- The texts "H" and "P" stand for the hash of the handshake and for a proof.
abbrev decode : String → Bytes
decode text =
    if str_eq text "H"
    then 7 ∷ 9 ∷ []
    else if str_eq text "P"
    then 0 ∷ 0 ∷ 0 ∷ 0 ∷ 0 ∷ 0 ∷ 0 ∷ 0 ∷ 0 ∷ 0 ∷ 0 ∷ 0 ∷ 1 ∷ []
    else []

abbrev init_of : Bytes → Option InitMessage
init_of received = some (
    build_init "N" "ws" (record { algorithm = "x25519-chacha20-poly1305"; key = "K"; key_id = "k" })
      (record { encryption_algorithms = "x25519-chacha20-poly1305" ∷ []; extensions = [] }) none)

abbrev toy : String → Platform
toy proof = record {
  parse_init = init_of;
  parse_confirm = λ received. some (build_confirm "s1" "H" proof none);
  marshal_response = λ m. 9 ∷ [];
  marshal_accepted = λ m. 10 ∷ [];
  marshal_rejected = λ m. 11 ∷ [];
  sign_response = λ seed m. "s";
  sign_accepted = λ seed m. "s";
  sign_rejected = λ seed m. "s";
  base64_encode = λ b. "b";
  base64_decode = decode;
  text_bytes = λ t. [];
  sha256 = λ b. b;
  hex_sha256 = λ b. "h";
  fingerprint = λ b. "f";
  public_key_from_seed = λ b. b;
  x25519_public_key = λ b. b;
  x25519_agree = λ a b. some a;
  hybrid_encapsulate = λ r b. none;
  derive_session_keys = λ a b c. keys;
  aead_open = λ k n c a. ok c;
  parse_block = λ b. ok alice;
  ed25519_verify = λ k s m. true;
}

abbrev refuses : String → SessionKeys → Option IdentityProofBlock → IdentityProofVerdict
refuses proof k block = record { accepts = false; reason_code = none; reason = none }

abbrev config :
    Option (String → SessionKeys → Option IdentityProofBlock → IdentityProofVerdict) → ServerConfig
config verify = record {
  server_domain_signing_seed = 1 ∷ [];
  domain = "b.example";
  supported_suites = "x25519-chacha20-poly1305" ∷ [];
  identity_proof_signature = λ key c s. "proof";
  verify_identity_proof = verify;
  lookup_client_identity_key = some (λ who key_id. ok (2 ∷ []));
  permissions = "send" ∷ [];
  session_ttl = 300;
  resumption_ticket = none;
  server_ephemeral_priv = none;
  server_hybrid_randomness = none;
  server_nonce = none;
  accepted_extensions = none;
}

abbrev draws : Draws
draws = record { session_id = "s1"; nonce = 6 ∷ []; private_key = 8 ∷ []; randomness = [] }

abbrev waiting_server : String → HandshakeServer
waiting_server proof = (on_init (toy proof) (config none) draws (7 ∷ []) fresh_server).0

abbrev accepted_server : HandshakeServer
accepted_server = (on_confirm (toy "P") (config none) [] (waiting_server "P")).0

accepts_alice :
    on_confirm (toy "P") (config none) [] (waiting_server "P") ≡ (accepted_server, ok (10 ∷ []))
unfolding on_init respond pick_suite offers build_init build_response on_confirm checked
    parse_confirm check_identity check_hash session_of accepted_bytes build_confirm build_accepted
    confirmation_hash open_identity_proof constant_time_equal diff_from progress_of
accepts_alice = refl

on_confirm-IsAccepted_example :
    IsAccepted (toy "P") (config none) [] (waiting_server "P") accepted_server
on_confirm-IsAccepted_example =
    on_confirm-IsAccepted (toy "P") (config none) [] (waiting_server "P") accepted_server
      accepts_alice

abbrev alice_session : HandshakeServerSession
alice_session = record {
  session_id = "s1";
  session_ttl = 300;
  permissions = "send" ∷ [];
  keys = keys;
  server_identity_proof_key_id = "f";
  server_identity_proof_signature = "proof";
  extensions = [];
  resumption_ticket = none;
  client_identity = "alice@a.example";
  client_long_term_key_id = "k1";
}

abbrev calls : List Call
calls = inited draws (7 ∷ []) ∷ confirmed [] ∷ inited draws (5 ∷ []) ∷ erased ∷ []

alice_established : session (run (toy "P") (config none) calls fresh_server) ≡ ok alice_session
unfolding run step session erase on_init respond pick_suite offers build_init build_response
    on_confirm checked parse_confirm check_identity check_hash session_of accepted_bytes
    build_confirm build_accepted confirmation_hash open_identity_proof constant_time_equal diff_from
    progress_of
alice_established = refl

run-IsVouched_example : IsVouched (toy "P") (config none) calls fresh_server alice_session
run-IsVouched_example = run-IsVouched (toy "P") (config none) calls alice_session alice_established

abbrev refused_progress : Progress
refused_progress = record {
  init = 7 ∷ [];
  resp = 9 ∷ [];
  keys = keys;
  proof = record { domain = "b.example"; key_id = "f"; signature = "proof" };
}

ready_to_confirm : progress_of (waiting_server "P") ≡ some refused_progress
unfolding progress_of on_init respond pick_suite offers build_init build_response
ready_to_confirm = refl

checks_alice :
    checked (toy "P") (config (some refuses)) (waiting_server "P") refused_progress []
    ≡ ok (build_confirm "s1" "H" "P" none, some alice)
unfolding on_init respond pick_suite offers build_init build_response checked parse_confirm
    check_identity check_hash build_confirm confirmation_hash open_identity_proof
    constant_time_equal diff_from
checks_alice = refl

on_confirm_refused_example :
    let (after, answer) = on_confirm (toy "P") (config (some refuses)) [] (waiting_server "P") in
    (answer
      ≡ throw (
          refusal
            (toy "P")
            (config (some refuses))
            (waiting_server "P")
            (refuses "P" keys (some alice))))
    × (after.final_session ≡ (waiting_server "P").final_session)
    × (client_identity after ≡ "alice@a.example")
    × (client_long_term_key_id after ≡ "k1")
on_confirm_refused_example =
    on_confirm_refused (toy "P") (config (some refuses)) [] (waiting_server "P") refused_progress
      (build_confirm "s1" "H" "P" none) alice refuses ready_to_confirm checks_alice refl refl

-- The first CONFIRM has alice's proof, a second one an empty proof; only the empty one is accepted.
abbrev proof_of : Bytes → String
proof_of [] = ""
proof_of (b ∷ bytes) = "P"

abbrev two_proofs : Platform
two_proofs = record (toy "P") {
  parse_confirm = λ received. some (build_confirm "s1" "H" (proof_of received) none);
}

abbrev wants_empty : String → SessionKeys → Option IdentityProofBlock → IdentityProofVerdict
wants_empty proof k block = record { accepts = str_eq proof ""; reason_code = none; reason = none }

abbrev refused_alice : HandshakeServer
refused_alice =
    (on_confirm two_proofs (config (some wants_empty)) (1 ∷ [])
      (on_init two_proofs (config (some wants_empty)) draws (7 ∷ []) fresh_server).0).0

abbrev nobody_accepted : HandshakeServer
nobody_accepted = (on_confirm two_proofs (config (some wants_empty)) [] refused_alice).0

names_alice : client_identity refused_alice ≡ "alice@a.example"
unfolding on_init respond pick_suite offers build_init build_response on_confirm checked
    parse_confirm check_identity check_hash session_of accepted_bytes build_confirm build_accepted
    confirmation_hash open_identity_proof constant_time_equal diff_from progress_of client_identity
names_alice = refl
