-- ===== src/Prelude/Dict.antt =====
-- Python's `dict` with string keys as an association list in insertion order. An assignment keeps
-- the place of a key that is there, and puts a new key at the end.
use mathlib.Core.Path.{◌≡◌, refl, subst}
use mathlib.Core.Bool.{Bool, true, false}
use mathlib.Core.List.{List, [], ◌∷◌}
use mathlib.Core.Option.{Option, none, some}
use native.Mathlib.Omega.{arith}
use text.Mathlib.Text.{◌==◌ as str_eq}
use text.Mathlib.TextEquality.{eq_iff}
use Prim.Native.String.{String}
use mathlib.Core.Logic.{inl, inr}
use gis_agent.Prelude.Logic.{Bool-cases}
use gis_agent.Prelude.Lists.{All}
use gis_agent.Prelude.Tests.{if◌then◌else◌}

abbrev pub Dict {ℓ} : Type ℓ → Type ℓ
Dict V = List (String × V)

module _ {ℓ} {V : Type ℓ} where
  -- `d.get(k)`
  unfoldable pub lookup : String → Dict V → Option V
  lookup k [] = none
  lookup k ((j, v) ∷ d) = if str_eq j k then some v else lookup k d

  -- `d[k] = v`
  unfoldable pub insert : String → V → Dict V → Dict V
  insert k v [] = (k, v) ∷ []
  insert k v ((j, w) ∷ d) = if str_eq j k then (j, v) ∷ d else (j, w) ∷ insert k v d

  -- `k in d`
  unfoldable pub has : String → Dict V → Bool
  has k [] = false
  has k ((j, v) ∷ d) = if str_eq j k then true else has k d

  -- `d.update(e)`
  unfoldable pub update : Dict V → Dict V → Dict V
  unfolding insert
  update d [] = d
  update d ((k, v) ∷ e) = update (insert k v d) e

  abbrev pub keys : Dict V → List String
  keys [] = []
  keys ((k, v) ∷ d) = k ∷ keys d

  pub lookup-insert :
      (k j : String) (v : V) (d : Dict V)
      → lookup j (insert k v d) ≡ (if str_eq k j then some v else lookup j d)
  unfolding lookup insert
  lookup-insert k j v [] = refl
  lookup-insert k j v ((i, w) ∷ d) =
      ground (arith, eq_iff k j, eq_iff i k, eq_iff i j, lookup-insert k j v d)

  pub has-insert :
      (k j : String) (v : V) (d : Dict V)
      → has j (insert k v d) ≡ (if str_eq k j then true else has j d)
  unfolding has insert
  has-insert k j v [] = refl
  has-insert k j v ((i, w) ∷ d) =
      ground (arith, eq_iff k j, eq_iff i k, eq_iff i j, has-insert k j v d)

  -- What holds of all keys holds of each key that is there.
  pub has-All {κ} :
      (P : String → Type κ) (d : Dict V) (k : String) → All P (keys d) → has k d ≡ true → P k
  unfolding has
  has-All P [] k h there = cc
  has-All P ((j, v) ∷ d) k h there = elim (Bool-cases (str_eq j k)) [
    | inl here ↦ subst P ((eq_iff j k).0 here) h.0
    | inr away ↦ has-All P d k h.1 (rw away at there)
  ]

  pub has-lookup : (k : String) (d : Dict V) → has k d ≡ true → (v : V) × (lookup k d ≡ some v)
  unfolding lookup has
  has-lookup k [] h = cc
  has-lookup k ((j, v) ∷ d) h = elim (Bool-cases (str_eq j k)) [
    | inl here ↦ (v, rw here refl)
    | inr there ↦ let (w, found) = has-lookup k d (rw there at h) in (w, rw there found)
  ]
