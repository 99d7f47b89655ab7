-- ===== src/Common/Errors.antt =====
-- Code that may throw: a value, or an error of the component's own type.
use mathlib.Core.Path.{◌≡◌, refl}
use mathlib.Core.Bool.{Bool, true, false}

pub data Fallible {ℓ κ} (E : Type ℓ) (A : Type κ) : Type (ℓ ⊔ κ) where
  throw : E → Fallible E A
  ok : A → Fallible E A

module _ {ℓ κ μ} {E : Type ℓ} {A : Type κ} {B : Type μ} where
  infixl 5 ◌>>=◌
  abbrev pub ◌>>=◌ : Fallible E A → (A → Fallible E B) → Fallible E B
  throw x >>= next = throw x
  ok value >>= next = next value

  -- The first step of a chain that succeeded has succeeded, and so has the rest of the chain.
  pub bind_parts :
      (start : Fallible E A) (next : A → Fallible E B) {end : B}
      → (start >>= next) ≡ ok end
      → (value : A) × (start ≡ ok value) × (next value ≡ ok end)
  bind_parts (throw x) next succeeded = cc
  bind_parts (ok value) next succeeded = (value, refl, succeeded)

module _ {ℓ κ} {E : Type ℓ} {A : Type κ} where
  infixl 5 ◌>>◌
  abbrev pub ◌>>◌ : Fallible E (Unit {0}) → Fallible E A → Fallible E A
  throw x >> next = throw x
  ok _ >> next = next

  pub then_parts :
      (start : Fallible E (Unit {0})) (next : Fallible E A) {end : A}
      → (start >> next) ≡ ok end
      → (start ≡ ok tt) × (next ≡ ok end)
  then_parts (throw x) next succeeded = cc
  then_parts (ok _) next succeeded = (refl, succeeded)

  pub ok-injective : {x y : A} → ◌≡◌ {A = Fallible E A} (ok x) (ok y) → x ≡ y
  ok-injective same = cc

module _ {ℓ} {E : Type ℓ} where
  -- `if (test) throw error;`
  abbrev pub throw_if : Bool → E → Fallible E (Unit {0})
  throw_if false error = ok tt
  throw_if true error = throw error

  pub throw_if-ok :
      (test : Bool) (error : E) {u : Unit {0}} → throw_if test error ≡ ok u → test ≡ false
  throw_if-ok false error passed = refl
  throw_if-ok true error passed = cc
