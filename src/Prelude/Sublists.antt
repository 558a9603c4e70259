-- ===== src/Prelude/Sublists.antt =====
-- What holds of all texts of a list and of those that are kept of it.
use Prim.Native.String.{String}
use mathlib.Core.Path.{◌≡◌, refl}
use mathlib.Core.Logic.{inl, inr}
use mathlib.Core.Bool.{Bool, true}
use mathlib.Core.List.{List, [], ◌∷◌, ◌++◌}
use gis_agent.Prelude.Lists.{All, all, keep, mem, dedup_from}
use gis_agent.Prelude.Logic.{Bool-cases, and_parts}

module _ (P : String → Type 0) where
  pub keep-All : (p : String → Bool) (xs : List String) → All P xs → All P (keep p xs)
  keep-All p [] h = tt
  keep-All p (x ∷ xs) h = elim (Bool-cases (p x)) [
    | inl passes ↦ rw passes (h.0, keep-All p xs h.1)
    | inr fails ↦ rw fails (keep-All p xs h.1)
  ]

  pub append-All : (xs ys : List String) → All P xs → All P ys → All P (xs ++ ys)
  append-All [] ys h k = k
  append-All (x ∷ xs) ys h k = (h.0, append-All xs ys h.1 k)

  pub dedup-All : (xs seen : List String) → All P xs → All P (dedup_from seen xs)
  unfolding dedup_from
  dedup-All [] seen h = tt
  dedup-All (x ∷ xs) seen h = elim (Bool-cases (mem x seen)) [
    | inl old ↦ rw old (dedup-All xs seen h.1)
    | inr new ↦ rw new (h.0, dedup-All xs (x ∷ seen) h.1)
  ]

pub kept : (p : String → Bool) (xs : List String) → All (λ x. p x ≡ true) (keep p xs)
kept p [] = tt
kept p (x ∷ xs) = elim (Bool-cases (p x)) [
  | inl passes ↦ rw passes (passes, kept p xs)
  | inr fails ↦ rw fails (kept p xs)
]

pub all-All : (p : String → Bool) (xs : List String) → all p xs ≡ true → All (λ x. p x ≡ true) xs
all-All p [] h = tt
all-All p (x ∷ xs) h =
    let (first, rest) = and_parts (p x) (all p xs) h in (first, all-All p xs rest)

pub All-all : (p : String → Bool) (xs : List String) → All (λ x. p x ≡ true) xs → all p xs ≡ true
All-all p [] h = refl
All-all p (x ∷ xs) h = rw (h.0, All-all p xs h.1) refl

pub All-map {ℓ κ μ} :
    {A : Type ℓ} {P : A → Type κ} {Q : A → Type μ} (xs : List A)
    → ((x : A) → P x → Q x)
    → All P xs
    → All Q xs
All-map [] f h = tt
All-map (x ∷ xs) f h = (f x h.0, All-map xs f h.1)

pub All-append {ℓ κ} :
    {A : Type ℓ} (P : A → Type κ) (xs ys : List A) → All P xs → All P ys → All P (xs ++ ys)
All-append P [] ys h k = k
All-append P (x ∷ xs) ys h k = (h.0, All-append P xs ys h.1 k)
