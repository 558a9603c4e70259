-- ===== src/Prelude/Result.antt =====
-- A computation that may raise: `err e` is the exception `e`.
use mathlib.Core.Path.{◌≡◌, refl, ap, ◌∙◌}
use mathlib.Core.Logic.{◌⊎◌, inl, inr}
use mathlib.Core.Bool.{Bool, true, false}
use gis_agent.Prelude.Tests.{if◌then◌else◌}

pub data Result {ℓ} (E A : Type ℓ) : Type ℓ where
  err : (raised : E) → Result E A
  ok : (value : A) → Result E A

module _ {ℓ} {E A B : Type ℓ} where
  infixl 5 ◌>>=◌ ◌>>◌
  abbrev pub ◌>>=◌ : Result E A → (A → Result E B) → Result E B
  err raised >>= rest = err raised
  ok value >>= rest = rest value

  abbrev pub ◌>>◌ : Result E A → Result E B → Result E B
  first >> second = first >>= λ _. second

  -- What a chain that returns has gone through.
  pub bind-ok :
      (first : Result E A) (rest : A → Result E B) {b : B}
      → (first >>= rest) ≡ ok b
      → (value : A) × (rest value ≡ ok b) × (first ≡ ok value)
  bind-ok (err raised) rest returned = cc
  bind-ok (ok value) rest returned = (value, returned, refl)

module _ {E : Type 0} where
  -- `if not passes: raise e`
  abbrev pub guard : (passes : Bool) → E → Result E Unit
  guard passes e = elim passes [ false ↦ err e | true ↦ ok tt ]

  pub guard-ok : (passes : Bool) (e : E) → guard passes e ≡ ok tt → passes ≡ true
  guard-ok false e returned = cc
  guard-ok true e returned = refl

  -- Inversion of a guard and what follows it.
  pub guard-bind :
      {A : Type 0} (passes : Bool) (e : E) (rest : Result E A) {a : A}
      → (guard passes e >> rest) ≡ ok a
      → (passes ≡ true) × (rest ≡ ok a)
  guard-bind false e rest returned = cc
  guard-bind true e rest returned = (refl, returned)

  -- Inversion of a test that returns or raises.
  pub test-ok :
      {A : Type 0} (passes : Bool) (e : E) {a b : A}
      → (if passes then ok a else err e) ≡ ok b
      → (passes ≡ true) × (a ≡ b)
  test-ok false e returned = cc
  test-ok true e returned = (refl, cc)

  pub guard-pass : (passes : Bool) (e : E) → passes ≡ true → guard passes e ≡ ok tt
  guard-pass false e h = cc
  guard-pass true e h = refl

module _ {E A B : Type 0} where
  -- A chain whose first part returns.
  pub then_ok :
      (first : Result E A) (rest : A → Result E B) {a : A} {z : Result E B}
      → first ≡ ok a
      → rest a ≡ z
      → (first >>= rest) ≡ z
  then_ok (err raised) rest returned continues = cc
  then_ok (ok value) rest returned continues = let same : value ≡ _ = cc in ap rest same ∙ continues

pub Result-cases {ℓ} :
    {E A : Type ℓ} (r : Result E A) → ((e : E) × (r ≡ err e)) ⊎ ((a : A) × (r ≡ ok a))
Result-cases (err e) = inl (e, refl)
Result-cases (ok a) = inr (a, refl)

pub same_value {ℓ} : {E A : Type ℓ} {a b : A} → ◌≡◌ {A = Result E A} (ok a) (ok b) → a ≡ b
same_value h = cc

-- Inversion of a test that returns or goes on.
pub test_or :
    {E A : Type 0} (passes : Bool) (second : Result E A) {a b : A}
    → (if passes then ok a else second) ≡ ok b
    → (a ≡ b) ⊎ (second ≡ ok b)
test_or true second h = inl cc
test_or false second h = inr h
