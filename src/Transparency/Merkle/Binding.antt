-- ===== src/Transparency/Merkle/Binding.antt =====
-- A root binds its leaves: two walks to one root from different leaves give a collision of SHA-256.
use mathlib.Core.Logic.{◌≢◌}
use native.Mathlib.Decide.{ℕ_discrete}
use semp_ts.Common.{
  ℕ, ◌<◌, ◌≡◌, refl, sym, ap₂, if◌then◌else◌, ◌∙◌, ◌⊎◌, inl, inr, Bool, true, false, arith, List,
  [], ◌∷◌, ◌++◌, length, ok, All,
}
use semp_ts.Transparency.Merkle.{Bytes, interior_prefix, hash_interior, from_left, step_up, climb}
use semp_ts.Transparency.Merkle.Climb.{climb-nil, climb-cons}

Bytes-discrete : Discrete (List ℕ)
Bytes-discrete = hlevel ℕ_discrete

abbrev pub IsSized : Bytes → Type 0
IsSized h = length h ≡ 32

abbrev pub IsHash : Bytes → Type 0
IsHash h = IsSized h × All (λ b. b < 256) h

append-injective : (a b c d : Bytes) → length a ≡ length c → a ++ b ≡ c ++ d → (a ≡ c) × (b ≡ d)
append-injective [] b [] d l e = (refl, e)
append-injective [] b (y ∷ c) d l e = absurd (omega arith)
append-injective (x ∷ a) b [] d l e = absurd (omega arith)
append-injective (x ∷ a) b (y ∷ c) d l e =
    let t : a ++ b ≡ c ++ d = cc in
    let h : x ≡ y = cc in let (p, q) = append-injective a b c d (omega arith) t in (ap₂ ◌∷◌ h p, q)

module _ (sha256 : Bytes → Bytes) where
  -- Two different texts with one digest.
  pub record Collision : Type 0 where
    pub first : Bytes
    pub second : Bytes
    pub differ : first ≢ second
    pub meet : sha256 first ≡ sha256 second

  hash_interior-injective :
      (a b c d : Bytes)
      → length a ≡ length c
      → hash_interior sha256 a b ≡ hash_interior sha256 c d
      → ((a ≡ c) × (b ≡ d)) ⊎ Collision
  unfolding hash_interior
  hash_interior-injective a b c d l e = elim (Bytes-discrete (a ++ b) (c ++ d)) [
    | yes same ↦ inl (append-injective a b c d l same)
    | no differ ↦ inr (record {
      first = interior_prefix ∷ a ++ b;
      second = interior_prefix ∷ c ++ d;
      differ = λ p. differ (tails p);
      meet = e;
    })
  ]
    where
      tails : interior_prefix ∷ a ++ b ≡ interior_prefix ∷ c ++ d → a ++ b ≡ c ++ d
      tails p = cc

  round_injective :
      (up : Bool) (r s r' s' : Bytes)
      → length r ≡ length r'
      → length s ≡ length s'
      → (if up then hash_interior sha256 s r else hash_interior sha256 r s)
        ≡ (if up then hash_interior sha256 s' r' else hash_interior sha256 r' s')
      → (r ≡ r') ⊎ Collision
  round_injective true r s r' s' lr ls e = elim (hash_interior-injective s r s' r' ls e) [
    | inl p ↦ inl p.1
    | inr c ↦ inr c
  ]
  round_injective false r s r' s' lr ls e = elim (hash_interior-injective r s r' s' lr e) [
    | inl p ↦ inl p.0
    | inr c ↦ inr c
  ]

  module _ (sized : (b : Bytes) → length (sha256 b) ≡ 32) where
    length-round :
        (up : Bool) (r s : Bytes)
        → length (if up then hash_interior sha256 s r else hash_interior sha256 r s) ≡ 32
    unfolding hash_interior
    length-round true r s = sized _
    length-round false r s = sized _

    pub climb_binding :
        (p q : List Bytes) (fn sn : ℕ) (r r' x : Bytes)
        → All IsSized p
        → All IsSized q
        → length r ≡ 32
        → length r' ≡ 32
        → climb sha256 fn sn r p ≡ ok x
        → climb sha256 fn sn r' q ≡ ok x
        → (r ≡ r') ⊎ Collision
    climb_binding [] [] fn sn r r' x hp hq hr hr' e f =
        inl ((climb-nil sha256 fn sn r x e).1 ∙ sym (climb-nil sha256 fn sn r' x f).1)
    climb_binding [] (t ∷ q) fn sn r r' x hp hq hr hr' e f =
        absurd
          (omega (arith, (climb-nil sha256 fn sn r x e).0, (climb-cons sha256 fn sn r' t x q f).0))
    climb_binding (s ∷ p) [] fn sn r r' x hp hq hr hr' e f =
        absurd
          (omega (arith, (climb-nil sha256 fn sn r' x f).0, (climb-cons sha256 fn sn r s x p e).0))
    climb_binding (s ∷ p) (t ∷ q) fn sn r r' x hp hq hr hr' e f =
        let up = from_left fn sn in
        elim (climb_binding p q (step_up fn sn up).0 (step_up fn sn up).1 _ _ x hp.1 hq.1
          (length-round up r s) (length-round up r' t) (climb-cons sha256 fn sn r s x p e).1
          (climb-cons sha256 fn sn r' t x q f).1) [
            | inl same ↦ round_injective up r s r' t (omega arith) (omega arith) same
            | inr c ↦ inr c
          ]
