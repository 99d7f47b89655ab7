-- ===== src/Handshake/Server/Lifetime.antt =====
-- A server over its whole life: whatever calls it gets, the session that it has is that of its own
-- two messages, and what a call that fails leaves.
use semp_ts.Common.{
  ◌≡◌, refl, sym, ap, ◌∙◌, subst, Option, none, some, List, [], ◌∷◌, ◌++◌, Fallible, ok, throw,
  Bytes,
}
use semp_ts.Handshake.Messages.{ConfirmMessage, ServerIdentityProof}
use semp_ts.Handshake.Platform.{SessionKeys, IdentityProofBlock, Platform}
use semp_ts.Handshake.Server.{
  ServerConfig, HandshakeServerSession, HandshakeServer, ServerError, Answer, Progress, progress,
  progress_of, Draws, erase,
}
use semp_ts.Handshake.Server.Init.{first_init, on_init}
use semp_ts.Handshake.Server.Confirm.{
  checked, note_client, check_verdict, after_verdict, after_checks, with_progress, on_confirm,
}
use semp_ts.Handshake.Server.Accepted.{IsAccepted, on_confirm-IsAccepted}

pub data Call : Type 0 where
  inited : Draws → Bytes → Call
  confirmed : Bytes → Call
  erased : Call

module _ (p : Platform) (cfg : ServerConfig) where
  unfoldable pub step : Call → HandshakeServer → HandshakeServer
  step (inited draws received) w = (on_init p cfg draws received w).0
  step (confirmed received) w = (on_confirm p cfg received w).0
  step erased w = erase w

  unfoldable pub run : List Call → HandshakeServer → HandshakeServer
  run [] w = w
  run (c ∷ cs) w = run cs (step c w)

  -- A session of a server that was `w` before the calls: one of the calls was a CONFIRM, which the
  -- server accepted in the state that the calls before it had left, and which set this session; the
  -- server still holds the INIT, the RESPONSE and the session id that it was accepted for.
  pub record IsVouched (cs : List Call) (w : HandshakeServer) (s : HandshakeServerSession)
      : Type 0 where
    pub before : List Call
    pub received : Bytes
    pub later : List Call
    pub placed : cs ≡ before ++ confirmed received ∷ later
    pub after : HandshakeServer
    pub out : Bytes
    pub taken : on_confirm p cfg received (run before w) ≡ (after, ok out)
    pub accepted : IsAccepted p cfg received (run before w) after
    pub set : after.final_session ≡ some s
    pub init_lem : (run cs w).init_canonical ≡ some accepted.progress.init
    pub resp_lem : (run cs w).resp_canonical ≡ some accepted.progress.resp
    pub same_id : s.session_id ≡ (run cs w).session_id

  pub IsVouched-later :
      (c : Call) (cs : List Call) (w : HandshakeServer) (s : HandshakeServerSession)
      → IsVouched cs (step c w) s
      → IsVouched (c ∷ cs) w s
  IsVouched-later c cs w s v = record {
    before = c ∷ v.before;
    received = v.received;
    later = v.later;
    placed = ap (λ rest. c ∷ rest) v.placed;
    after = v.after;
    out = v.out;
    taken = unfold run in v.taken;
    accepted = unfold run in v.accepted;
    set = v.set;
    init_lem = unfold run in v.init_lem;
    resp_lem = unfold run in v.resp_lem;
    same_id = unfold run in v.same_id;
  }

  -- The same messages, session id and session.
  abbrev pub IsSame : HandshakeServer → HandshakeServer → Type 0
  IsSame w after =
      (after.init_canonical ≡ w.init_canonical)
      × (after.resp_canonical ≡ w.resp_canonical)
      × (after.session_id ≡ w.session_id)
      × (after.final_session ≡ w.final_session)

  pub note_client-IsSame :
      (block : Option IdentityProofBlock) (w : HandshakeServer)
      → IsSame w (note_client p cfg block w)
  note_client-IsSame none w = (refl, refl, refl, refl)
  note_client-IsSame (some block) w = (refl, refl, refl, refl)

  after_verdict-IsSame :
      (g : Progress) (w : HandshakeServer) (verdict : Fallible ServerError (Unit {0}))
      {after : HandshakeServer} {e : ServerError}
      → after_verdict p cfg g w verdict ≡ (after, throw e)
      → after ≡ w
  after_verdict-IsSame g w (throw x) h = sym (ap (λ r. r.0) h)
  after_verdict-IsSame g w (ok u) h = cc

  after_checks-IsSame :
      (g : Progress) (w : HandshakeServer)
      (answer : Fallible ServerError (ConfirmMessage × Option IdentityProofBlock))
      {after : HandshakeServer} {e : ServerError}
      → after_checks p cfg g w answer ≡ (after, throw e)
      → IsSame w after
  after_checks-IsSame g w (throw x) h = subst (IsSame w) (ap (λ r. r.0) h) (refl, refl, refl, refl)
  after_checks-IsSame g w (ok (confirm, block)) h =
      let w' = note_client p cfg block w in
      subst (IsSame w)
        (sym (
          after_verdict-IsSame g w'
            (check_verdict p cfg w' g.keys confirm block cfg.verify_identity_proof) h))
        (note_client-IsSame block w)

  pub with_progress-IsSame :
      (received : Bytes) (w : HandshakeServer) (o : Option Progress) {after : HandshakeServer}
      {e : ServerError}
      → with_progress p cfg received w o ≡ (after, throw e)
      → IsSame w after
  with_progress-IsSame received w none h =
      subst (IsSame w) (ap (λ r. r.0) h) (refl, refl, refl, refl)
  with_progress-IsSame received w (some g) h =
      after_checks-IsSame g w (checked p cfg w g received) h

  pub progress_parts :
      (i r : Option Bytes) (k : Option SessionKeys) (s : Option ServerIdentityProof) {g : Progress}
      → progress i r k s ≡ some g
      → (i ≡ some g.init) × (r ≡ some g.resp)
  progress_parts none r k s h = cc
  progress_parts (some i) none k s h = cc
  progress_parts (some i) (some r) none s h = cc
  progress_parts (some i) (some r) (some k) none h = cc
  progress_parts (some i) (some r) (some k) (some s) {g} h =
      (ap some (init_of h), ap some (resp_of h))
    where
      init_of : {a b : Progress} → ◌≡◌ {A = Option Progress} (some a) (some b) → a.init ≡ b.init
      init_of h = cc

      resp_of : {a b : Progress} → ◌≡◌ {A = Option Progress} (some a) (some b) → a.resp ≡ b.resp
      resp_of h = cc

  -- The INIT, the RESPONSE and the session id of a server that has its INIT are kept.
  abbrev pub IsKept : HandshakeServer → HandshakeServer → Type 0
  IsKept w after =
      (init : Bytes)
      → w.init_canonical ≡ some init
      → (after.init_canonical ≡ some init)
        × (after.resp_canonical ≡ w.resp_canonical)
        × (after.session_id ≡ w.session_id)

  accepted-IsKept :
      (received : Bytes) (w after : HandshakeServer)
      → IsAccepted p cfg received w after
      → IsKept w after
  accepted-IsKept received w after a init e =
      let (i, r, d, f) = note_client-IsSame a.block w in
      (
        ap (λ v. v.init_canonical) a.changed ∙ i ∙ e,
        ap (λ v. v.resp_canonical) a.changed ∙ r,
        ap (λ v. v.session_id) a.changed ∙ d,
      )

  confirm-IsKept :
      (received : Bytes) (w : HandshakeServer) → IsKept w (on_confirm p cfg received w).0
  confirm-IsKept received w = go (on_confirm p cfg received w) refl
    where
      go : (answer : Answer) → on_confirm p cfg received w ≡ answer → IsKept w answer.0
      go (after, ok out) h =
          accepted-IsKept received w after (on_confirm-IsAccepted p cfg received w after h)
      go (after, throw e) h =
          let (i, r, d, f) : IsSame w after =
            unfold on_confirm in with_progress-IsSame received w (progress_of w) h in
          λ init has. (i ∙ has, r, d)

  -- A second INIT changes nothing.
  first_init-twice :
      (draws : Draws) (received : Bytes) (w : HandshakeServer) (held : Option Bytes) (init : Bytes)
      → held ≡ some init
      → (first_init p cfg draws received w held).0 ≡ w
  first_init-twice draws received w none init e = cc
  first_init-twice draws received w (some x) init e = refl

  step-IsKept : (c : Call) (w : HandshakeServer) → IsKept w (step c w)
  unfolding step on_init erase
  step-IsKept (inited draws received) w init e =
      let same = first_init-twice draws received w w.init_canonical init e in
      (
        ap (λ v. v.init_canonical) same ∙ e,
        ap (λ v. v.resp_canonical) same,
        ap (λ v. v.session_id) same,
      )
  step-IsKept (confirmed received) w init e = confirm-IsKept received w init e
  step-IsKept erased w init e = (e, refl, refl)

  pub run-IsKept : (cs : List Call) (w : HandshakeServer) → IsKept w (run cs w)
  unfolding run
  run-IsKept [] w init e = (e, refl, refl)
  run-IsKept (c ∷ cs) w init e =
      let (i, r, d) = step-IsKept c w init e in
      let (i', r', d') = run-IsKept cs (step c w) init i in (i', r' ∙ r, d' ∙ d)

  -- The session that a CONFIRM sets is vouched for by it.
  pub IsVouched-now :
      (received : Bytes) (cs : List Call) (w : HandshakeServer) (s : HandshakeServerSession)
      (after : HandshakeServer) (out : Bytes)
      → on_confirm p cfg received w ≡ (after, ok out)
      → after.final_session ≡ some s
      → IsVouched (confirmed received ∷ cs) w s
  unfolding progress_of run
  IsVouched-now received cs w s after out h f =
      let a = on_confirm-IsAccepted p cfg received w after h in
      let (i, r) =
        progress_parts w.init_canonical w.resp_canonical w.session_keys w.server_id_proof
          a.progress_lem in
      let (i', r', d') = run-IsKept (confirmed received ∷ cs) w a.progress.init i in
      let same : a.session ≡ s = some_injective (sym a.session_lem ∙ f) in
      record {
        before = [];
        received = received;
        later = cs;
        placed = refl;
        after = after;
        out = out;
        taken = h;
        accepted = a;
        set = f;
        init_lem = i';
        resp_lem = r' ∙ r;
        same_id = sym (ap (λ t. t.session_id) same) ∙ a.same_id ∙ sym d';
      }
    where
      some_injective :
          {a b : HandshakeServerSession}
          → ◌≡◌ {A = Option HandshakeServerSession} (some a) (some b)
          → a ≡ b
      some_injective h = cc
