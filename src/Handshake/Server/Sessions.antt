-- ===== src/Handshake/Server/Sessions.antt =====
-- The calls that set the server up, and every session over the server's whole life.
use semp_ts.Common.{
  String, ◌≡◌, refl, sym, ap, ◌∙◌, ◌⊎◌, false, Option, none, some, List, [], ◌∷◌, str_eq, not, ◌||◌,
  ok, throw, Bytes, Bool-cases, inl, inr, ok-injective,
}
use semp_ts.Handshake.Messages.{InitMessage, ConfirmMessage}
use semp_ts.Handshake.Platform.{SessionKeys, IdentityProofBlock, Platform}
use semp_ts.Handshake.Server.{
  IdentityProofVerdict, ServerConfig, HandshakeServerSession, HandshakeServer, ServerError, Answer,
  Progress, progress_of, Draws, fresh_server, pick_suite, session, established, client_identity,
  client_long_term_key_id, erase, or_value, reject,
}
use semp_ts.Handshake.Server.Init.{
  respond, with_hybrid, with_shared, with_suite, with_init, first_init, on_init, is_hybrid,
}
use semp_ts.Handshake.Server.Confirm.{
  checked, note_client, check_verdict, after_verdict, on_confirm,
}
use semp_ts.Handshake.Server.Lifetime.{
  Call, inited, confirmed, erased, step, run, IsVouched, IsVouched-later, IsVouched-now,
  with_progress-IsSame,
}

module _ (p : Platform) (cfg : ServerConfig) where
  -- `onInit` does not touch the session.
  with_hybrid-final :
      (init : InitMessage) (suite : String) (nonce : Bytes) (w : HandshakeServer)
      (answer : Option (Bytes × Bytes))
      → (with_hybrid p cfg init suite nonce w answer).0.final_session ≡ w.final_session
  unfolding respond
  with_hybrid-final init suite nonce w none = refl
  with_hybrid-final init suite nonce w (some (ciphertext, shared)) = refl

  with_shared-final :
      (init : InitMessage) (suite : String) (nonce priv : Bytes) (w : HandshakeServer)
      (answer : Option Bytes)
      → (with_shared p cfg init suite nonce priv w answer).0.final_session ≡ w.final_session
  unfolding respond
  with_shared-final init suite nonce priv w none = refl
  with_shared-final init suite nonce priv w (some shared) = refl

  with_suite-final :
      (draws : Draws) (init : InitMessage) (w : HandshakeServer) (suite : Option String)
      → (with_suite p cfg draws init w suite).0.final_session ≡ w.final_session
  with_suite-final draws init w none = refl
  with_suite-final draws init w (some suite) = elim (Bool-cases (is_hybrid p cfg suite)) [
    | inl e ↦ rw e (with_hybrid-final init suite _ _ _)
    | inr e ↦ rw e (with_shared-final init suite _ _ _ _)
  ]

  with_init-final :
      (draws : Draws) (received : Bytes) (w : HandshakeServer) (m : Option InitMessage)
      → (with_init p cfg draws received w m).0.final_session ≡ w.final_session
  with_init-final draws received w none = refl
  with_init-final draws received w (some init) =
      elim (Bool-cases (not (str_eq init.type "SEMP_HANDSHAKE") || not (str_eq init.step "init"))) [
        | inl e ↦ rw e refl
        | inr e ↦ rw e (
            with_suite-final draws init
              (record w { init_canonical = some received; session_id = draws.session_id })
              (pick_suite init.capabilities.encryption_algorithms cfg.supported_suites))
      ]

  first_init-final :
      (draws : Draws) (received : Bytes) (w : HandshakeServer) (held : Option Bytes)
      → (first_init p cfg draws received w held).0.final_session ≡ w.final_session
  first_init-final draws received w none = with_init-final draws received w (p.parse_init received)
  first_init-final draws received w (some init) = refl

  -- A session is there before a call, or the call is the CONFIRM that sets it.
  step_session :
      (c : Call) (cs : List Call) (w : HandshakeServer) (s : HandshakeServerSession)
      → (step p cfg c w).final_session ≡ some s
      → (w.final_session ≡ some s) ⊎ IsVouched p cfg (c ∷ cs) w s
  unfolding step erase on_init
  step_session (inited draws received) cs w s f =
      inl (sym (first_init-final draws received w w.init_canonical) ∙ f)
  step_session erased cs w s f = inl f
  step_session (confirmed received) cs w s f = go (on_confirm p cfg received w) refl
    where
      go :
          (answer : Answer)
          → on_confirm p cfg received w ≡ answer
          → (w.final_session ≡ some s) ⊎ IsVouched p cfg (confirmed received ∷ cs) w s
      go (after, ok out) h = inr (
          IsVouched-now p cfg received cs w s after out h (sym (ap (λ r. r.0.final_session) h) ∙ f))
      go (after, throw e) h =
          let same : after.final_session ≡ w.final_session =
            unfold on_confirm in (with_progress-IsSame p cfg received w (progress_of w) h).3 in
          inl (sym same ∙ sym (ap (λ r. r.0.final_session) h) ∙ f)

  run_session :
      (cs : List Call) (w : HandshakeServer) (s : HandshakeServerSession)
      → (run p cfg cs w).final_session ≡ some s
      → (w.final_session ≡ some s) ⊎ IsVouched p cfg cs w s
  unfolding run
  run_session [] w s f = inl f
  run_session (c ∷ cs) w s f = elim (run_session cs (step p cfg c w) s f) [
    | inl now ↦ step_session c cs w s now
    | inr v ↦ inr (IsVouched-later p cfg c cs w s v)
  ]

  established_parts :
      (o : Option HandshakeServerSession) {s : HandshakeServerSession}
      → established o ≡ ok s
      → o ≡ some s
  established_parts none h = cc
  established_parts (some t) h = ap some (ok-injective h)

  -- Whatever calls a fresh server gets, in whatever order, a session that it returns was set by one of
  -- them: a CONFIRM that passed all checks of `onConfirm` in the state that the calls before it had
  -- left. The server still holds the INIT and the RESPONSE whose hash that CONFIRM carries, and its
  -- session id is the session's.
  pub run-IsVouched :
      (cs : List Call) (s : HandshakeServerSession)
      → session (run p cfg cs fresh_server) ≡ ok s
      → IsVouched p cfg cs fresh_server s
  unfolding session
  run-IsVouched cs s h =
      elim (run_session cs fresh_server s
        (established_parts (run p cfg cs fresh_server).final_session h)) [
          | inl e ↦ absurd (none_some e)
          | inr v ↦ v
        ]
    where
      none_some :
          {t : HandshakeServerSession} → ◌≡◌ {A = Option HandshakeServerSession} none (some t) → ⊥
      none_some h = cc

  -- The error of a refusal, with the bytes to send.
  abbrev pub refusal : HandshakeServer → IdentityProofVerdict → ServerError
  refusal w verdict =
      reject p cfg w (or_value verdict.reason_code "auth_failed") verdict.reason verdict.reason

  after_refusal :
      (g : Progress) (w : HandshakeServer) (confirm : ConfirmMessage)
      (block : Option IdentityProofBlock)
      (found : Option (String → SessionKeys → Option IdentityProofBlock → IdentityProofVerdict))
      (verify : String → SessionKeys → Option IdentityProofBlock → IdentityProofVerdict)
      → found ≡ some verify
      → (verify confirm.identity_proof g.keys block).accepts ≡ false
      → after_verdict p cfg g w (check_verdict p cfg w g.keys confirm block found)
        ≡ (w, throw (refusal w (verify confirm.identity_proof g.keys block)))
  after_refusal g w confirm block found verify e refused = rw e (rw refused refl)

  -- A proof that opens and is signed, but that the caller's verifier refuses, leaves its names on the
  -- server: `onConfirm` throws the rejection with the verifier's reason and sets no session, and the
  -- server reports the identity and the key of the client that it has refused.
  pub on_confirm_refused :
      (received : Bytes) (w : HandshakeServer) (g : Progress) (confirm : ConfirmMessage)
      (block : IdentityProofBlock)
      (verify : String → SessionKeys → Option IdentityProofBlock → IdentityProofVerdict)
      → progress_of w ≡ some g
      → checked p cfg w g received ≡ ok (confirm, some block)
      → cfg.verify_identity_proof ≡ some verify
      → (verify confirm.identity_proof g.keys (some block)).accepts ≡ false
      → let (after, answer) = on_confirm p cfg received w in
        (answer ≡ throw (refusal w (verify confirm.identity_proof g.keys (some block))))
        × (after.final_session ≡ w.final_session)
        × (client_identity after ≡ block.client_identity)
        × (client_long_term_key_id after ≡ block.client_long_term_key_id)
  unfolding on_confirm client_identity client_long_term_key_id
  on_confirm_refused received w g confirm block verify ready passed has refused =
      let left : on_confirm p cfg received w ≡ (
        note_client p cfg (some block) w,
        throw (refusal w (verify confirm.identity_proof g.keys (some block))),
      ) =
        rw (ready, passed)
          (after_refusal g (note_client p cfg (some block) w) confirm (some block)
            cfg.verify_identity_proof verify has refused) in
      (
        ap (λ r. r.1) left,
        ap (λ r. r.0.final_session) left,
        ap (λ r. or_value r.0.client_identity_value "") left,
        ap (λ r. or_value r.0.client_long_term_key_id_value "") left,
      )
