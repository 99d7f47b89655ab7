-- ===== src/Delivery/Pipeline/Checks.antt =====
-- What an envelope has passed that no step of the pipeline rejects.
use text.Mathlib.TextEquality.{eq_iff}
use semp_ts.Common.{
  ℕ, ◌+◌, ◌-◌, ◌≤◌, ◌<◌, String, ◌≡◌, refl, sym, ap, ◌∙◌, ◌⊎◌, inl, inr, Bool, true, false, Option,
  none, some, List, [], ◌∷◌, ◌++◌, ltb, str_eq, ◌==◌, arith, Bool-cases, Option-cases, Fallible, ok,
  throw, length, lookup, bind_parts, then_parts, ◌≢◌,
}
use semp_ts.Delivery.Pipeline.{
  Envelope, DecodedBrief, RecipientCandidate, Platform, Verdict, pass, refuse, PipelineConfig,
  OpenError, Reason, seal_error, mac_error, signature_unverified, mac_unverified, PipelineRejection,
  Check, demand, tolerance, verify_signature, check_expiry, check_session_id, check_session_mac,
  check_domain_policy, open_slot, open_with, open_brief_only, unless, opened, check_envelope,
  reject, no_recipients, copies,
}

Fallible-cases :
    {E A : Type 0} (f : Fallible E A) → ((e : E) × (f ≡ throw e)) ⊎ ((a : A) × (f ≡ ok a))
Fallible-cases (throw e) = inl (e, refl)
Fallible-cases (ok a) = inr (a, refl)

module _ (platform : Platform) (cfg : PipelineConfig) (env : Envelope) where
  -- The seal is signed with a key of the sender's domain.
  abbrev pub IsSigned : Type 0
  IsSigned =
      (keys : String → Option (List ℕ)) × (key : List ℕ) × (cfg.domain_keys ≡ some keys)
      × (keys env.postmark.from_domain ≡ some key)
      × (0 < length key)
      × (platform.verify_seal env key ≡ ok true)

  -- It has no expiry, or one that is at most the tolerance ago.
  abbrev pub IsFresh : Type 0
  IsFresh =
      (env.postmark.expires ≡ none)
      ⊎ (env.postmark.expires ≡ some "")
      ⊎ ((text : String) × (expiry_ms : ℕ) × (env.postmark.expires ≡ some text)
          × (platform.date_parse text ≡ some expiry_ms)
          × (cfg.now ≤ expiry_ms + tolerance cfg.clock_skew_ms))

  demand-passed :
      (code : String) (failed : String → Reason) (reason : Reason) (answer : Fallible String Bool)
      → demand code failed reason answer ≡ ok tt
      → answer ≡ ok true
  unfolding demand
  demand-passed code failed reason (throw e) h = cc
  demand-passed code failed reason (ok true) h = refl
  demand-passed code failed reason (ok false) h = cc

  verify_signature-IsSigned : verify_signature platform cfg env ≡ ok tt → IsSigned
  unfolding verify_signature
  verify_signature-IsSigned h = elim (Option-cases cfg.domain_keys) [
    | inl absent ↦ absurd (ground (arith, h, absent))
    | inr (keys, there) ↦ elim (Option-cases (keys env.postmark.from_domain)) [
      | inl absent ↦ absurd (ground (arith, h, there, absent))
      | inr (key, found) ↦ elim (Bool-cases (length key == 0)) [
        | inl empty ↦ absurd (ground (arith, h, there, found, empty))
        | inr filled ↦ (
          keys,
          key,
          there,
          found,
          ground (arith, filled),
          demand-passed "seal_invalid" seal_error signature_unverified
              (platform.verify_seal env key) (ground (arith, h, there, found, filled)),
        )
      ]
    ]
  ]

  check_expiry-IsFresh : check_expiry platform cfg env ≡ ok tt → IsFresh
  unfolding check_expiry
  check_expiry-IsFresh h = elim (Option-cases env.postmark.expires) [
    | inl absent ↦ inl absent
    | inr (text, there) ↦ elim (Bool-cases (str_eq text "")) [
      | inl empty ↦ inr (inl (there ∙ ap some ((eq_iff text "").0 empty)))
      | inr filled ↦ elim (Option-cases (platform.date_parse text)) [
        | inl unread ↦ absurd (ground (arith, h, there, filled, unread))
        | inr (expiry_ms, read) ↦ inr (
            inr (
              text,
              expiry_ms,
              there,
              read,
              elim (Bool-cases (ltb (tolerance cfg.clock_skew_ms) (cfg.now - expiry_ms))) [
                | inl past ↦ absurd (ground (arith, h, there, filled, read, past))
                | inr fresh ↦ ground (arith, fresh)
              ],
            ))
      ]
    ]
  ]

  -- It names a session that is not known to be retired.
  abbrev pub IsInSession : Type 0
  IsInSession =
      (str_eq (platform.trim env.postmark.session_id) "" ≡ false)
      × ((cfg.session_retired ≡ none)
          ⊎ ((retired : String → Option Bool) × (cfg.session_retired ≡ some retired)
              × (retired env.postmark.session_id ≢ some true)))

  check_session_id-IsInSession : check_session_id platform cfg env ≡ ok tt → IsInSession
  unfolding check_session_id
  check_session_id-IsInSession h = (
    named,
    elim (Option-cases cfg.session_retired) [
      | inl absent ↦ inl absent
      | inr (retired, there) ↦
          inr (retired, there, λ gone. absurd (ground (arith, h, named, there, gone)))
    ],
  )
    where
      named : str_eq (platform.trim env.postmark.session_id) "" ≡ false
      named = elim (Bool-cases (str_eq (platform.trim env.postmark.session_id) "")) [
        | inl empty ↦ absurd (ground (arith, h, empty))
        | inr filled ↦ filled
      ]

  -- Its session MAC is under the current key.
  abbrev pub IsMacked : Type 0
  IsMacked =
      (mac : List ℕ) × (cfg.env_mac ≡ some mac)
      × (0 < length mac)
      × (platform.verify_mac env mac ≡ ok true)

  check_session_mac-IsMacked : check_session_mac platform cfg env ≡ ok tt → IsMacked
  unfolding check_session_mac
  check_session_mac-IsMacked h = elim (Option-cases cfg.env_mac) [
    | inl absent ↦ absurd (ground (arith, h, absent))
    | inr (mac, there) ↦ elim (Bool-cases (length mac == 0)) [
      | inl empty ↦ absurd (ground (arith, h, there, empty))
      | inr filled ↦ (
        mac,
        there,
        ground (arith, filled),
        demand-passed "session_mac_invalid" mac_error mac_unverified (platform.verify_mac env mac)
            (ground (arith, h, there, filled)),
      )
    ]
  ]

  -- The domain's policy lets it pass.
  abbrev pub IsWelcome : Type 0
  IsWelcome =
      (cfg.domain_policy ≡ none)
      ⊎ ((policy : String → Verdict) × (cfg.domain_policy ≡ some policy)
          × (policy env.postmark.from_domain ≡ pass))

  Verdict-cases :
      (v : Verdict)
      → (v ≡ pass)
        ⊎ ((is_silent : Bool) × (code : String) × (reason : Option String) × (v
              ≡ refuse is_silent code reason))
  Verdict-cases pass = inl refl
  Verdict-cases (refuse is_silent code reason) = inr (is_silent, code, reason, refl)

  check_domain_policy-IsWelcome : check_domain_policy platform cfg env ≡ ok tt → IsWelcome
  unfolding check_domain_policy
  check_domain_policy-IsWelcome h = elim (Option-cases cfg.domain_policy) [
    | inl absent ↦ inl absent
    | inr (policy, there) ↦ elim (Verdict-cases (policy env.postmark.from_domain)) [
      | inl passed ↦ inr (policy, there, passed)
      | inr (is_silent, code, reason, refused) ↦ absurd (ground (arith, h, there, refused))
    ]
  ]

  -- A candidate of the list whose slot opens the brief.
  pub record IsOpened (candidates : List RecipientCandidate) (brief : DecodedBrief) : Type 0 where
    pub candidate : RecipientCandidate
    pub wrapped : String
    pub earlier : List RecipientCandidate
    pub later : List RecipientCandidate
    pub listed : candidates ≡ earlier ++ candidate ∷ later
    pub slot : lookup candidate.key_id env.brief_recipients ≡ some wrapped
    pub opens : open_slot platform env candidate wrapped ≡ ok brief

  behind :
      (c : RecipientCandidate) (cs : List RecipientCandidate) (brief : DecodedBrief)
      → IsOpened cs brief
      → IsOpened (c ∷ cs) brief
  behind c cs brief h = record {
    candidate = h.candidate;
    wrapped = h.wrapped;
    earlier = c ∷ h.earlier;
    later = h.later;
    listed = ap (λ t. c ∷ t) h.listed;
    slot = h.slot;
    opens = h.opens;
  }

  open_with-IsOpened :
      (cs : List RecipientCandidate) (errors : List (String × String)) (brief : DecodedBrief)
      → open_with platform env cs errors ≡ ok brief
      → IsOpened cs brief
  unfolding open_with
  open_with-IsOpened [] [] brief h = cc
  open_with-IsOpened [] (e ∷ errors) brief h = cc
  open_with-IsOpened (c ∷ cs) errors brief h =
      elim (Option-cases (lookup c.key_id env.brief_recipients)) [
        | inl absent ↦
            behind c cs brief (open_with-IsOpened cs errors brief (ground (arith, h, absent)))
        | inr (wrapped, slot) ↦ elim (Fallible-cases (open_slot platform env c wrapped)) [
          | inl (e, failed) ↦ behind c cs brief (
              open_with-IsOpened cs (errors ++ (c.key_id, e) ∷ []) brief
                (ground (arith, h, slot, failed)))
          | inr (found, opens) ↦
              let same : found ≡ brief = ground (arith, h, slot, opens) in
              record {
                candidate = c;
                wrapped = wrapped;
                earlier = [];
                later = cs;
                listed = refl;
                slot = slot;
                opens = opens ∙ ap ok same;
              }
        ]
      ]

  open_brief_only-IsOpened :
      (cs : List RecipientCandidate) (brief : DecodedBrief)
      → open_brief_only platform env cs ≡ ok brief
      → IsOpened cs brief
  unfolding open_brief_only
  open_brief_only-IsOpened [] brief h = cc
  open_brief_only-IsOpened (c ∷ cs) brief h =
      open_with-IsOpened (c ∷ cs) [] brief (ground (arith, h))

  -- Everything that an envelope has passed whose recipients are served.
  pub record IsAccepted (brief : DecodedBrief) (recipients : List String) : Type 0 where
    pub signed : (cfg.skip_signature_check ≡ true) ⊎ IsSigned
    pub fresh : (cfg.skip_expiry_check ≡ true) ⊎ IsFresh
    pub in_session : (cfg.skip_session_id_check ≡ true) ⊎ IsInSession
    pub macked : (cfg.skip_session_mac_check ≡ true) ⊎ IsMacked
    pub welcome : IsWelcome
    pub opened_by : IsOpened cfg.brief_recipients brief
    pub to : List String
    pub addressed : brief.to ≡ some to
    pub served : recipients ≡ to ++ copies brief.cc

  unless-passed :
      (skip : Bool) (check : Check)
      → unless platform skip check ≡ ok tt
      → (skip ≡ true) ⊎ (check ≡ ok tt)
  unless-passed true check h = inl refl
  unless-passed false check h = inr h

  opened-ok :
      (found : Fallible OpenError DecodedBrief) (brief : DecodedBrief)
      → opened platform found ≡ ok brief
      → found ≡ ok brief
  opened-ok (ok found) brief h = cc
  opened-ok (throw e) brief h = cc

  IsAccepted-with :
      (brief : DecodedBrief) (to : List String) (recipients : List String)
      → brief.to ≡ some to
      → recipients ≡ to ++ copies brief.cc
      → ((unless platform cfg.skip_signature_check (verify_signature platform cfg env) ≡ ok tt)
          × (unless platform cfg.skip_expiry_check (check_expiry platform cfg env) ≡ ok tt)
          × (unless platform cfg.skip_session_id_check (check_session_id platform cfg env) ≡ ok tt)
          × (unless platform cfg.skip_session_mac_check (check_session_mac platform cfg env)
              ≡ ok tt)
          × (check_domain_policy platform cfg env ≡ ok tt))
      → opened platform (open_brief_only platform env cfg.brief_recipients) ≡ ok brief
      → IsAccepted brief recipients
  IsAccepted-with brief to recipients addressed served (s, f, i, m, w) o = record {
    signed = checked (unless-passed cfg.skip_signature_check _ s) verify_signature-IsSigned;
    fresh = checked (unless-passed cfg.skip_expiry_check _ f) check_expiry-IsFresh;
    in_session = checked (unless-passed cfg.skip_session_id_check _ i) check_session_id-IsInSession;
    macked = checked (unless-passed cfg.skip_session_mac_check _ m) check_session_mac-IsMacked;
    welcome = check_domain_policy-IsWelcome w;
    opened_by = open_brief_only-IsOpened cfg.brief_recipients brief (opened-ok _ brief o);
    to = to;
    addressed = addressed;
    served = served;
  }
    where
      checked : {skipped A B : Type 0} → skipped ⊎ A → (A → B) → skipped ⊎ B
      checked (inl skip) f = inl skip
      checked (inr a) f = inr (f a)

  recipients_of : (brief : DecodedBrief) → Fallible PipelineRejection (DecodedBrief × List String)
  recipients_of brief = elim brief.to [
    | none ↦ throw (reject "brief_invalid" no_recipients)
    | some to ↦ ok (brief, to ++ copies brief.cc)
  ]

  -- An envelope whose recipients are served has passed every check that the configuration does not
  -- skip: a signature of the sender's domain, an expiry within the tolerance, a session that is not
  -- known to be retired, a session MAC under the current key, and the domain's policy; and the brief
  -- is what a candidate of the configuration opens, with the list of the recipients that
  -- are served, the copies after it.
  pub check_envelope-IsAccepted :
      (brief : DecodedBrief) (recipients : List String)
      → check_envelope platform cfg env ≡ ok (brief, recipients)
      → IsAccepted brief recipients
  unfolding check_envelope recipients_of
  check_envelope-IsAccepted brief recipients h =
      let (s, h1) =
        then_parts (unless platform cfg.skip_signature_check (verify_signature platform cfg env)) _
          h in
      let (f, h2) =
        then_parts (unless platform cfg.skip_expiry_check (check_expiry platform cfg env)) _ h1 in
      let (i, h3) =
        then_parts (unless platform cfg.skip_session_id_check (check_session_id platform cfg env)) _
          h2 in
      let (m, h4) =
        then_parts (unless platform cfg.skip_session_mac_check (check_session_mac platform cfg env))
          _ h3 in
      let (w, h5) = then_parts (check_domain_policy platform cfg env) _ h4 in
      let (found, o, h6) =
        bind_parts (opened platform (open_brief_only platform env cfg.brief_recipients))
          recipients_of h5 in
      elim (Option-cases found.to) [
        | inl absent ↦ absurd (ground (arith, h6, absent))
        | inr (to, there) ↦
            let same : found ≡ brief = ground (arith, h6, there) in
            IsAccepted-with brief to recipients (ap (λ b. b.to) (sym same) ∙ there)
              (ground (arith, h6, there, same)) (s, f, i, m, w) (o ∙ ap ok same)
      ]
