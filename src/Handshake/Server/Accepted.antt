-- ===== src/Handshake/Server/Accepted.antt =====
-- What a CONFIRM that is accepted has passed.
use text.Mathlib.TextEquality.{eq_iff}
use semp_ts.Common.{
  String, ◌≡◌, ◌≢◌, refl, sym, ap, ◌∙◌, subst, Bool, true, false, Option, none, some, ◌++◌, str_eq,
  not, if◌then◌else◌, Fallible, ok, throw, throw_if, throw_if-ok, ◌>>◌, bind_parts, then_parts,
  ok-injective, Bytes, constant_time_equal_lem,
}
use semp_ts.Handshake.Messages.{ConfirmMessage}
use semp_ts.Handshake.Platform.{
  SessionKeys, IdentityProofBlock, Platform, confirmation_hash, open_identity_proof,
}
use semp_ts.Handshake.Server.{
  IdentityProofVerdict, ServerConfig, HandshakeServerSession, HandshakeServer, ServerError,
  Progress, progress_of, client_identity, client_long_term_key_id, confirm_mismatch,
}
use semp_ts.Handshake.Server.Confirm.{
  parse_confirm, or_auth_failed, identity_signed, check_signature, check_block, check_proof,
  check_identity, check_hash, checked, note_client, check_verdict, session_of, after_verdict,
  after_checks, with_progress, on_confirm,
}

module _ (p : Platform) (cfg : ServerConfig) where
  -- Where keys of clients are looked up, the block's signature is by the key that is found, over the
  -- session and the hash of the handshake.
  abbrev pub IsSigned :
      HandshakeServer
      → Bytes
      → IdentityProofBlock
      → Option (String → String → Fallible String Bytes)
      → Type 0
  IsSigned w hash block none = Unit
  IsSigned w hash block (some lookup_key) =
      (client_pub : Bytes) × ((lookup_key block.client_identity block.client_long_term_key_id
          ≡ ok client_pub)
        × (p.ed25519_verify client_pub (p.base64_decode block.identity_signature)
              (identity_signed p cfg w.session_id hash)
            ≡ true))

  -- An empty proof has no block; another opens to its block, which is signed.
  abbrev pub IsIdentified :
      HandshakeServer → SessionKeys → Bytes → ConfirmMessage → Option IdentityProofBlock → Type 0
  IsIdentified w keys hash confirm none = confirm.identity_proof ≡ ""
  IsIdentified w keys hash confirm (some block) =
      (confirm.identity_proof ≢ "")
      × (open_identity_proof p confirm.identity_proof keys.enc_c2s w.session_id ≡ ok block)
      × IsSigned w hash block cfg.lookup_client_identity_key

  -- Where the caller verifies proofs, it accepts this one.
  abbrev pub IsApproved :
      SessionKeys
      → ConfirmMessage
      → Option IdentityProofBlock
      → Option (String → SessionKeys → Option IdentityProofBlock → IdentityProofVerdict)
      → Type 0
  IsApproved keys confirm block none = Unit
  IsApproved keys confirm block (some verify) =
      (verify confirm.identity_proof keys block).accepts ≡ true

  -- The client that the session names: that of the block, or, where the proof is empty, the one that
  -- the server has from before, if any.
  abbrev pub client_of : HandshakeServer → Option IdentityProofBlock → String × String
  client_of w none = (client_identity w, client_long_term_key_id w)
  client_of w (some block) = (block.client_identity, block.client_long_term_key_id)

  pub record IsAccepted (received : Bytes) (w after : HandshakeServer) : Type 0 where
    pub progress : Progress
    pub progress_lem : progress_of w ≡ some progress
    pub confirm : ConfirmMessage
    pub parsed : p.parse_confirm received ≡ some confirm
    pub confirms :
        p.base64_decode confirm.confirmation_hash ≡ p.sha256 (progress.init ++ progress.resp)
    pub block : Option IdentityProofBlock
    pub identified :
        IsIdentified w progress.keys (p.sha256 (progress.init ++ progress.resp)) confirm block
    pub approved : IsApproved progress.keys confirm block cfg.verify_identity_proof
    pub changed : after ≡ record (note_client p cfg block w) {
      final_session = some (session_of p cfg progress (note_client p cfg block w));
      server_eph_priv = none;
    }
    pub session : HandshakeServerSession
    pub session_lem : after.final_session ≡ some session
    pub same_id : session.session_id ≡ w.session_id
    pub same_keys : session.keys ≡ progress.keys
    pub same_client : (session.client_identity, session.client_long_term_key_id) ≡ client_of w block

  parse_confirm_parts :
      (m : Option ConfirmMessage) {confirm : ConfirmMessage}
      → parse_confirm p cfg m ≡ ok confirm
      → m ≡ some confirm
  unfolding parse_confirm
  parse_confirm_parts none h = cc
  parse_confirm_parts (some m) h =
      let (_, last) = then_parts (throw_if _ confirm_mismatch) (ok m) h in
      ap some (ok-injective last)

  true_not_false : true ≡ false → ⊥
  true_not_false h = cc

  -- The session is of the server, and names the client of the block or the one known before.
  session_of-named :
      (g : Progress) (block : Option IdentityProofBlock) (w : HandshakeServer)
      → let s = session_of p cfg g (note_client p cfg block w) in
        (s.session_id ≡ w.session_id)
        × (s.keys ≡ g.keys)
        × ((s.client_identity, s.client_long_term_key_id) ≡ client_of w block)
  unfolding session_of client_identity client_long_term_key_id
  session_of-named g none w = (refl, refl, refl)
  session_of-named g (some block) w = (refl, refl, refl)

  not-not : (b : Bool) → not b ≡ false → b ≡ true
  not-not true e = refl
  not-not false e = cc

  or_auth_failed-ok :
      {A : Type 0} (w : HandshakeServer) (answer : Fallible String A) {a : A}
      → or_auth_failed p cfg w answer ≡ ok a
      → answer ≡ ok a
  or_auth_failed-ok w (throw e) h = cc
  or_auth_failed-ok w (ok b) h = ap ok (ok-injective h)

  check_block-IsSigned :
      (w : HandshakeServer) (hash : Bytes) (block : IdentityProofBlock)
      (find : Option (String → String → Fallible String Bytes))
      → check_block p cfg w hash block find ≡ ok tt
      → IsSigned w hash block find
  check_block-IsSigned w hash block none h = tt
  check_block-IsSigned w hash block (some find) h =
      let (key, found, signed) =
        bind_parts (or_auth_failed p cfg w _) (check_signature p cfg w hash block) h in
      (key, (or_auth_failed-ok w _ found, not-not _ (throw_if-ok _ _ signed)))

  check_identity-IsIdentified :
      (w : HandshakeServer) (keys : SessionKeys) (hash : Bytes) (confirm : ConfirmMessage)
      {block : Option IdentityProofBlock}
      → check_identity p cfg w keys hash confirm ≡ ok block
      → IsIdentified w keys hash confirm block
  unfolding check_identity
  check_identity-IsIdentified w keys hash confirm {block} h =
      go (str_eq confirm.identity_proof "") refl h
    where
      go :
          (empty : Bool)
          → str_eq confirm.identity_proof "" ≡ empty
          → (if empty then ok none else check_proof p cfg w keys hash confirm) ≡ ok block
          → IsIdentified w keys hash confirm block
      go true e h =
          subst (IsIdentified w keys hash confirm) (ok-injective h)
            ((eq_iff confirm.identity_proof "").0 e)
      go false e h =
          let proof = open_identity_proof p confirm.identity_proof keys.enc_c2s w.session_id in
          let (b, opened, h1) =
            bind_parts (or_auth_failed p cfg w proof)
              (λ b. check_block p cfg w hash b cfg.lookup_client_identity_key >> ok (some b)) h in
          let (signed, last) =
            then_parts (check_block p cfg w hash b cfg.lookup_client_identity_key) (ok (some b))
              h1 in
          subst (IsIdentified w keys hash confirm) (ok-injective last) (
            λ empty. true_not_false (sym ((eq_iff confirm.identity_proof "").1 empty) ∙ e),
            or_auth_failed-ok w proof opened,
            check_block-IsSigned w hash b cfg.lookup_client_identity_key signed,
          )

  check_verdict-IsApproved :
      (w : HandshakeServer) (keys : SessionKeys) (confirm : ConfirmMessage)
      (block : Option IdentityProofBlock)
      (verify : Option (String → SessionKeys → Option IdentityProofBlock → IdentityProofVerdict))
      → check_verdict p cfg w keys confirm block verify ≡ ok tt
      → IsApproved keys confirm block verify
  check_verdict-IsApproved w keys confirm block none h = tt
  check_verdict-IsApproved w keys confirm block (some verify) h = not-not _ (throw_if-ok _ _ h)

  -- The checks of a CONFIRM that passes them.
  record IsChecked (received : Bytes) (w : HandshakeServer) (g : Progress)
      (confirm : ConfirmMessage) (block : Option IdentityProofBlock) : Type 0 where
    parsed : p.parse_confirm received ≡ some confirm
    confirms : p.base64_decode confirm.confirmation_hash ≡ p.sha256 (g.init ++ g.resp)
    identified : IsIdentified w g.keys (p.sha256 (g.init ++ g.resp)) confirm block

  checked-IsChecked :
      (received : Bytes) (w : HandshakeServer) (g : Progress)
      {result : ConfirmMessage × Option IdentityProofBlock}
      → checked p cfg w g received ≡ ok result
      → IsChecked received w g result.0 result.1
  unfolding checked check_hash confirmation_hash
  checked-IsChecked received w g {result} h =
      let (confirm, read, h1) = bind_parts (parse_confirm p cfg (p.parse_confirm received)) _ h in
      let (same, h2) = then_parts (throw_if _ _) _ h1 in
      let (block, identified, last) =
        bind_parts (check_identity p cfg w g.keys (p.sha256 (g.init ++ g.resp)) confirm) _ h2 in
      subst (λ r. IsChecked received w g r.0 r.1) (ok-injective last)
        (record {
          parsed = parse_confirm_parts _ read;
          confirms = constant_time_equal_lem _ _ (not-not _ (throw_if-ok _ _ same));
          identified = check_identity-IsIdentified w g.keys _ confirm identified;
        })

  answered :
      (g : Progress) (w : HandshakeServer) (verdict : Fallible ServerError (Unit {0}))
      {after : HandshakeServer} {out : Bytes}
      → after_verdict p cfg g w verdict ≡ (after, ok out)
      → (verdict ≡ ok tt)
        × (after ≡ record w { final_session = some (session_of p cfg g w); server_eph_priv = none })
  answered g w (throw e) h = cc
  answered g w (ok u) h = (refl, sym (ap (λ r. r.0) h))

  -- A client is accepted only on proof: the server has sent its response and is not erased, the
  -- CONFIRM parses and carries the hash of the two messages, the identity proof is empty or opens
  -- under the session's key to a block that is signed by the client's key, where keys are looked up,
  -- over this session and hash, and the caller's verifier accepts it. The session then set has the
  -- server's session id and the handshake's keys; it names the client of the block, or, where the
  -- proof is empty, the client whose names the server has kept from an earlier CONFIRM, if any.
  pub on_confirm-IsAccepted :
      (received : Bytes) (w after : HandshakeServer) {out : Bytes}
      → on_confirm p cfg received w ≡ (after, ok out)
      → IsAccepted received w after
  unfolding on_confirm
  on_confirm-IsAccepted received w after {out} h = from (progress_of w) refl h
    where
      finish :
          (g : Progress)
          → progress_of w ≡ some g
          → (answer : Fallible ServerError (ConfirmMessage × Option IdentityProofBlock))
          → checked p cfg w g received ≡ answer
          → after_checks p cfg g w answer ≡ (after, ok out)
          → IsAccepted received w after
      finish g e (throw x) c h = cc
      finish g e (ok (confirm, block)) c h =
          let r = checked-IsChecked received w g c in
          let w' = note_client p cfg block w in
          let (verdict, changed) =
            answered g w' (check_verdict p cfg w' g.keys confirm block cfg.verify_identity_proof)
              h in
          record {
            progress = g;
            progress_lem = e;
            confirm = confirm;
            parsed = r.parsed;
            confirms = r.confirms;
            block = block;
            identified = r.identified;
            approved =
                check_verdict-IsApproved w' g.keys confirm block cfg.verify_identity_proof verdict;
            changed = changed;
            session = session_of p cfg g w';
            session_lem = ap (λ v. v.final_session) changed;
            same_id = (session_of-named g block w).0;
            same_keys = (session_of-named g block w).1;
            same_client = (session_of-named g block w).2;
          }

      from :
          (progress : Option Progress)
          → progress_of w ≡ progress
          → with_progress p cfg received w progress ≡ (after, ok out)
          → IsAccepted received w after
      from none e h = cc
      from (some g) e h = finish g e (checked p cfg w g received) refl h
