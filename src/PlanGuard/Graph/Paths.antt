-- ===== src/PlanGuard/Graph/Paths.antt =====
-- Edges, paths and orders of a dependency graph: what the searches are held against.
use gis_agent.Prelude.{String, true, List, [], ◌∷◌, mem, ◌≡◌, All, inl, inr, arith, Bool-cases}
use gis_agent.PlanGuard.Graph.{Graph, dependencies}
use gis_agent.PlanGuard.Graph.Sets.{mem-cons_cases, mem-cons_of_mem, mem_of_All}

-- `a` depends on `b`.
abbrev pub Edge : Graph → String → String → Type 0
Edge g a b = mem b (dependencies g a) ≡ true

-- `a` depends on `b` over one step or more.
pub data Reaches (g : Graph) (a : String) : String → Type 0 where
  step : {b : String} → Edge g a b → Reaches g a b
  more : {b c : String} → Reaches g a b → Edge g b c → Reaches g a c

-- The steps stand behind their dependencies, the latest first.
abbrev pub IsOrdered : Graph → List String → Type 0
IsOrdered g [] = Unit
IsOrdered g (x ∷ xs) = All (λ d. mem d xs ≡ true) (dependencies g x) × IsOrdered g xs

module _ (g : Graph) where
  -- An ordered list is closed under dependency.
  pub closed :
      (xs : List String) (x d : String)
      → IsOrdered g xs
      → mem x xs ≡ true
      → Edge g x d
      → mem d xs ≡ true
  unfolding mem
  closed [] x d o h e = ground arith
  closed (y ∷ xs) x d o h e = elim (mem-cons_cases x y xs h) [
    | inl p ↦
        mem-cons_of_mem d y xs (mem_of_All (λ z. mem z xs) d (dependencies g y) o.0 (cc (p, e)))
    | inr m ↦ mem-cons_of_mem d y xs (closed xs x d o.1 m e)
  ]

  -- What is reached from a step whose dependencies lie in an ordered list lies in it too.
  reached_in :
      {a c : String} (xs : List String)
      → IsOrdered g xs
      → All (λ d. mem d xs ≡ true) (dependencies g a)
      → Reaches g a c
      → mem c xs ≡ true
  reached_in {a} {c} xs o h (step e) = mem_of_All (λ z. mem z xs) c (dependencies g a) h e
  reached_in {c = c} xs o h (more {b = b} r e) = closed xs b c o (reached_in xs o h r) e

  -- No step of an ordered list depends on itself.
  pub ordered_acyclic :
      (xs : List String) (x : String) → IsOrdered g xs → mem x xs ≡ true → ¬ (Reaches g x x)
  unfolding mem
  ordered_acyclic [] x o h r = ground arith
  ordered_acyclic (y ∷ xs) x o h r = elim (Bool-cases (mem x xs)) [
    | inl old ↦ ordered_acyclic xs x o.1 old r
    | inr new ↦ elim (mem-cons_cases x y xs h) [
      | inl p ↦ cc (reached_in xs o.1 (first p) r)
      | inr m ↦ cc
    ]
  ]
    where
      first : x ≡ y → All (λ d. mem d xs ≡ true) (dependencies g x)
      first p = rw p o.0
