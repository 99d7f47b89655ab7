-- ===== src/Keys/DirectoryCache/Rollback.antt =====
-- No directory is accepted that is older than one that has been accepted.
use text.Mathlib.TextEquality.{eq_iff}
use semp_ts.Common.{
  ℕ, ◌≤◌, ◌<◌, String, ◌≡◌, refl, sym, ap, ◌∙◌, ◌⊎◌, inl, inr, Bool, true, false, Option, none,
  List, [], ◌∷◌, ltb, ◌==◌, str_eq, if◌then◌else◌, lookup, insert, lookup-insert, Fallible, ok,
  throw, throw_if, length, then_parts, ok-injective, arith, Bool-cases, Option-cases, ◌≢◌, subst,
}
use semp_ts.Keys.DirectoryCache.{
  DeviceDirectory, CacheError, CertificateCheck, Cache, check_rollback, check_certificates,
  check_schema, verify_and_cache, highest_revision, missing_key, unverified,
}

-- One call of `verifyAndCache`; an error leaves the cache as it is.
pub record Fetched : Type 0 where
  pub dir : DeviceDirectory
  pub key : List ℕ
  pub cert_check : Option CertificateCheck

-- The cache after a call.
abbrev pub or_keep : Cache → Fallible CacheError Cache → Cache
or_keep cache (throw e) = cache
or_keep cache (ok cache') = cache'

module _ (validate : DeviceDirectory → Option String)
    (verify : DeviceDirectory → List ℕ → Bool) where
  unfoldable pub after_fetch : Fetched → Cache → Cache
  after_fetch f cache =
      or_keep cache (verify_and_cache validate verify f.dir f.key f.cert_check cache)

  unfoldable pub after_fetches : List Fetched → Cache → Cache
  after_fetches [] cache = cache
  after_fetches (f ∷ fs) cache = after_fetches fs (after_fetch f cache)

  -- What an accepted directory has shown, and what it leaves.
  record Accepts (dir : DeviceDirectory) (key : List ℕ) (cache cache' : Cache) : Type 0 where
    valid : validate dir ≡ none
    signed : verify dir key ≡ true
    newer : highest_revision dir.user_id cache ≤ dir.revision
    cached : cache' ≡ insert dir.user_id dir.revision cache

  schema-passed :
      (dir : DeviceDirectory) → check_schema validate verify dir ≡ ok tt → validate dir ≡ none
  unfolding check_schema
  schema-passed dir h = elim (Option-cases (validate dir)) [
    | inl fine ↦ fine
    | inr (e, failed) ↦ absurd (ground (arith, h, failed))
  ]

  signature-passed :
      (answer : Bool)
      → throw_if {E = CacheError} (if answer then false else true) unverified ≡ ok tt
      → answer ≡ true
  signature-passed true h = refl
  signature-passed false h = cc

  rollback-passed :
      (dir : DeviceDirectory) (cache : Cache)
      → check_rollback dir cache ≡ ok tt
      → highest_revision dir.user_id cache ≤ dir.revision
  unfolding check_rollback highest_revision
  rollback-passed dir cache h = elim (Option-cases (lookup dir.user_id cache)) [
    | inl fresh ↦ ground (arith, fresh)
    | inr (cached, found) ↦ elim (Bool-cases (ltb dir.revision cached)) [
      | inl older ↦ absurd (ground (arith, h, found, older))
      | inr newer ↦ ground (arith, found, newer)
    ]
  ]

  verify_and_cache-Accepts :
      (dir : DeviceDirectory) (key : List ℕ) (cert_check : Option CertificateCheck)
      (cache cache' : Cache)
      → verify_and_cache validate verify dir key cert_check cache ≡ ok cache'
      → Accepts dir key cache cache'
  unfolding verify_and_cache
  verify_and_cache-Accepts dir key cert_check cache cache' h =
      let (a, h1) = then_parts (check_schema validate verify dir) _ h in
      let (b, h2) = then_parts (throw_if (length key == 0) missing_key) _ h1 in
      let (c, h3) =
        then_parts (throw_if (if verify dir key then false else true) unverified) _ h2 in
      let (d, h4) = then_parts (check_rollback dir cache) _ h3 in
      let (e, h5) = then_parts (check_certificates cert_check dir) _ h4 in
      record {
        valid = schema-passed dir a;
        signed = signature-passed (verify dir key) c;
        newer = rollback-passed dir cache d;
        cached = sym (ok-injective h5);
      }

  highest-insert :
      (user_id other : String) (revision : ℕ) (cache : Cache)
      → highest_revision other (insert user_id revision cache)
        ≡ (if str_eq user_id other then revision else highest_revision other cache)
  unfolding highest_revision
  highest-insert user_id other revision cache =
      ground (arith, lookup-insert user_id other revision cache)

  -- A cached revision never falls.
  highest_grows :
      (user_id : String) (f : Fetched) (cache : Cache)
      → highest_revision user_id cache ≤ highest_revision user_id (after_fetch f cache)
  unfolding after_fetch
  highest_grows user_id f cache =
      go (verify_and_cache validate verify f.dir f.key f.cert_check cache) refl
    where
      grows :
          (str_eq f.dir.user_id user_id ≡ true) ⊎ (str_eq f.dir.user_id user_id ≡ false)
          → highest_revision f.dir.user_id cache ≤ f.dir.revision
          → highest_revision user_id cache ≤ (
              if str_eq f.dir.user_id user_id
              then f.dir.revision
              else highest_revision user_id cache)
      grows (inl same) newer = rw same (
          subst (λ u. highest_revision u cache ≤ f.dir.revision)
            ((eq_iff f.dir.user_id user_id).0 same) newer)
      grows (inr other) newer = rw other (omega arith)

      go :
          (answer : Fallible CacheError Cache)
          → verify_and_cache validate verify f.dir f.key f.cert_check cache ≡ answer
          → highest_revision user_id cache ≤ highest_revision user_id (or_keep cache answer)
      go (throw e) failed = omega arith
      go (ok cache') done =
          let accepted = verify_and_cache-Accepts f.dir f.key f.cert_check cache cache' done in
          rw (accepted.cached, highest-insert f.dir.user_id user_id f.dir.revision cache)
            (grows (Bool-cases (str_eq f.dir.user_id user_id)) accepted.newer)

  highest_grows_all :
      (user_id : String) (fs : List Fetched) (cache : Cache)
      → highest_revision user_id cache ≤ highest_revision user_id (after_fetches fs cache)
  unfolding after_fetches
  highest_grows_all user_id [] cache = omega arith
  highest_grows_all user_id (f ∷ fs) cache =
      omega
        (arith, highest_grows user_id f cache, highest_grows_all user_id fs (after_fetch f cache))

  -- Once a directory has been accepted, its schema valid and its signature verified, and whatever
  -- directories of any users are fetched after it: the highest revision of its user is at least its
  -- revision, and no directory of the user with a lower revision is accepted.
  pub verify_and_cache-no_rollback :
      (dir old : DeviceDirectory) (key key' : List ℕ) (check check' : Option CertificateCheck)
      (cache cache' : Cache) (later : List Fetched)
      → verify_and_cache validate verify dir key check cache ≡ ok cache'
      → old.user_id ≡ dir.user_id
      → old.revision < dir.revision
      → (validate dir ≡ none)
        × (verify dir key ≡ true)
        × (dir.revision ≤ highest_revision dir.user_id (after_fetches later cache'))
        × ((next : Cache)
            → verify_and_cache validate verify old key' check' (after_fetches later cache')
              ≢ ok next)
  verify_and_cache-no_rollback dir old key key' check check' cache cache' later done same older =
      let accepted = verify_and_cache-Accepts dir key check cache cache' done in
      let now : highest_revision dir.user_id cache' ≡ dir.revision =
        ap (highest_revision dir.user_id) accepted.cached
        ∙ highest-insert dir.user_id dir.user_id dir.revision cache
        ∙ ground (arith, eq_iff dir.user_id dir.user_id) in
      let grown = highest_grows_all dir.user_id later cache' in
      (
        accepted.valid,
        accepted.signed,
        omega (arith, now, grown),
        λ next again.
            let rolled =
              verify_and_cache-Accepts old key' check' (after_fetches later cache') next again in
            let newer : highest_revision dir.user_id (after_fetches later cache') ≤ old.revision =
              subst (λ u. highest_revision u (after_fetches later cache') ≤ old.revision) same
                rolled.newer in
            absurd (omega (arith, now, grown, newer)),
      )
