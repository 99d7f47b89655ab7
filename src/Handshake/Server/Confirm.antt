-- ===== src/Handshake/Server/Confirm.antt =====
-- src/handshake/server_state.ts: onConfirm.
use semp_ts.Common.{
  String, Option, none, some, ◌++◌, str_eq, not, ◌||◌, if◌then◌else◌, Fallible, ok, throw, throw_if,
  ◌>>=◌, ◌>>◌, Bytes, constant_time_equal,
}
use semp_ts.Handshake.Messages.{ConfirmMessage, ResumptionTicket, build_accepted, or_none}
use semp_ts.Handshake.Platform.{
  SessionKeys, IdentityProofBlock, Platform, confirmation_hash, open_identity_proof,
}
use semp_ts.Handshake.Server.{
  IdentityProofVerdict, ServerConfig, HandshakeServerSession, HandshakeServer, ServerError,
  or_value, Answer, Progress, progress_of, reject, confirm_before_init, confirm_not_json,
  confirm_mismatch,
}

module _ (p : Platform) (cfg : ServerConfig) where
  unfoldable pub parse_confirm : Option ConfirmMessage → Fallible ServerError ConfirmMessage
  parse_confirm none = throw confirm_not_json
  parse_confirm (some confirm) = do
    throw_if (not (str_eq confirm.type "SEMP_HANDSHAKE") || not (str_eq confirm.step "confirm"))
        confirm_mismatch
    ok confirm

  -- A throw becomes the rejection with its reason.
  abbrev pub or_auth_failed {ℓ} :
      {A : Type ℓ} → HandshakeServer → Fallible String A → Fallible ServerError A
  or_auth_failed w (throw reason) = throw (reject p cfg w "auth_failed" (some reason) (some reason))
  or_auth_failed w (ok a) = ok a

  -- What the client's identity signature is over.
  abbrev pub identity_signed : String → Bytes → Bytes
  identity_signed session_id hash =
      p.text_bytes "SEMP-IDENTITY:" ++ (p.text_bytes session_id ++ hash)

  abbrev pub check_signature :
      HandshakeServer → Bytes → IdentityProofBlock → Bytes → Fallible ServerError (Unit {0})
  check_signature w hash block client_pub =
      throw_if
        (not (
          p.ed25519_verify client_pub (p.base64_decode block.identity_signature)
            (identity_signed w.session_id hash)))
        (reject p cfg w "auth_failed" (some "identity_signature did not verify")
          (some "identity_signature did not verify"))

  abbrev pub check_block :
      HandshakeServer
      → Bytes
      → IdentityProofBlock
      → Option (String → String → Fallible String Bytes)
      → Fallible ServerError (Unit {0})
  check_block w hash block none = ok tt
  check_block w hash block (some lookup_key) =
      or_auth_failed w (lookup_key block.client_identity block.client_long_term_key_id)
      >>= λ client_pub. check_signature w hash block client_pub

  abbrev pub check_proof :
      HandshakeServer
      → SessionKeys
      → Bytes
      → ConfirmMessage
      → Fallible ServerError (Option IdentityProofBlock)
  check_proof w keys hash confirm = do
    block ←
        or_auth_failed w (open_identity_proof p confirm.identity_proof keys.enc_c2s w.session_id)
    check_block w hash block cfg.lookup_client_identity_key
    ok (some block)

  -- The block of the client's proof, checked; none where the proof is empty.
  unfoldable pub check_identity :
      HandshakeServer
      → SessionKeys
      → Bytes
      → ConfirmMessage
      → Fallible ServerError (Option IdentityProofBlock)
  check_identity w keys hash confirm =
      if str_eq confirm.identity_proof "" then ok none else check_proof w keys hash confirm

  unfoldable pub check_hash :
      HandshakeServer → Bytes → ConfirmMessage → Fallible ServerError (Unit {0})
  check_hash w hash confirm =
      throw_if (not (constant_time_equal (p.base64_decode confirm.confirmation_hash) hash))
        (reject p cfg w "handshake_invalid" none (some "confirmation hash mismatch"))

  -- What `onConfirm` does before it changes the server.
  unfoldable pub checked :
      HandshakeServer
      → Progress
      → Bytes
      → Fallible ServerError (ConfirmMessage × Option IdentityProofBlock)
  unfolding parse_confirm check_identity check_hash confirmation_hash
  checked w g received = do
    confirm ← parse_confirm (p.parse_confirm received)
    check_hash w (confirmation_hash p g.init g.resp) confirm
    block ← check_identity w g.keys (confirmation_hash p g.init g.resp) confirm
    ok (confirm, block)

  -- The client that the proof names.
  abbrev pub note_client : Option IdentityProofBlock → HandshakeServer → HandshakeServer
  note_client none w = w
  note_client (some block) w = record w {
    client_identity_value = some block.client_identity;
    client_long_term_key_id_value = some block.client_long_term_key_id;
  }

  abbrev pub check_verdict :
      HandshakeServer
      → SessionKeys
      → ConfirmMessage
      → Option IdentityProofBlock
      → Option (String → SessionKeys → Option IdentityProofBlock → IdentityProofVerdict)
      → Fallible ServerError (Unit {0})
  check_verdict w keys confirm block none = ok tt
  check_verdict w keys confirm block (some verify) =
      let verdict = verify confirm.identity_proof keys block in
      let code = or_value verdict.reason_code "auth_failed" in
      throw_if (not verdict.accepts) (reject p cfg w code verdict.reason verdict.reason)

  abbrev pub ticket_of :
      SessionKeys → Option (SessionKeys → ResumptionTicket) → Option ResumptionTicket
  ticket_of keys none = none
  ticket_of keys (some ticket) = some (ticket keys)

  unfoldable pub session_of : Progress → HandshakeServer → HandshakeServerSession
  session_of g w = record {
    session_id = w.session_id;
    session_ttl = cfg.session_ttl;
    permissions = cfg.permissions;
    keys = g.keys;
    server_identity_proof_key_id = g.proof.key_id;
    server_identity_proof_signature = g.proof.signature;
    extensions = or_none cfg.accepted_extensions;
    resumption_ticket = ticket_of g.keys cfg.resumption_ticket;
    client_identity = or_value w.client_identity_value "";
    client_long_term_key_id = or_value w.client_long_term_key_id_value "";
  }

  unfoldable pub accepted_bytes : Progress → HandshakeServer → Bytes
  accepted_bytes g w = p.marshal_accepted (
      build_accepted (p.sign_accepted cfg.server_domain_signing_seed) w.session_id cfg.session_ttl
        cfg.permissions (ticket_of g.keys cfg.resumption_ticket) cfg.accepted_extensions)

  -- The server after the verdict.
  abbrev pub after_verdict : Progress → HandshakeServer → Fallible ServerError (Unit {0}) → Answer
  after_verdict g w (throw e) = (w, throw e)
  after_verdict g w (ok u) = (
    record w { final_session = some (session_of g w); server_eph_priv = none },
    ok (accepted_bytes g w),
  )

  abbrev pub after_checks :
      Progress
      → HandshakeServer
      → Fallible ServerError (ConfirmMessage × Option IdentityProofBlock)
      → Answer
  after_checks g w (throw e) = (w, throw e)
  after_checks g w (ok (confirm, block)) =
      let w' = note_client block w in
      after_verdict g w' (check_verdict w' g.keys confirm block cfg.verify_identity_proof)

  abbrev pub with_progress : Bytes → HandshakeServer → Option Progress → Answer
  with_progress received w none = (w, throw confirm_before_init)
  with_progress received w (some g) = after_checks g w (checked w g received)

  unfoldable pub on_confirm : Bytes → HandshakeServer → Answer
  unfolding checked session_of accepted_bytes progress_of
  on_confirm received w = with_progress received w (progress_of w)
