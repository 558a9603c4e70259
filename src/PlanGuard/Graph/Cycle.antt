-- ===== src/PlanGuard/Graph/Cycle.antt =====
-- What `_detect_cycle` of packages/domain/services/plan_guard.py decides.
use gis_agent.Prelude.{
  String, Bool, true, false, Option, none, some, List, [], mem, All, ◌≡◌, refl, subst, ◌⊎◌, inl,
  inr, arith, Bool-cases,
}
use gis_agent.Prelude.Dict.{keys}
use gis_agent.PlanGuard.Graph.{
  Graph, Walk, exhausted, cyclic, clear, walk_all, walk, unseen, found_cycle, detect_cycle,
  fuel_for,
}
use gis_agent.PlanGuard.Graph.Sets.{
  All-of_mem, absent-nil, length-keys, mem_of_All, dependencies_of_absent,
}
use gis_agent.PlanGuard.Graph.Paths.{Reaches, step, more, IsOrdered, ordered_acyclic}
use gis_agent.PlanGuard.Graph.Search.{Sound, walk-Sound, walk_all-Sound}

module _ (g : Graph) where
  search-Sound : Sound g (keys g) unseen (walk_all (walk g (fuel_for g)) (keys g) unseen)
  search-Sound =
      walk_all-Sound g (walk g (fuel_for g)) []
        (λ k s e t o.
          walk-Sound g (fuel_for g) k s (rw e (omega (arith, absent-nil (keys g), length-keys g)))
            (rw e tt) o)
        (keys g) unseen refl (All-of_mem (keys g) (λ k m. tt)) tt

  -- Whatever is reached is reached from a key.
  starts_at_key : {a c : String} → Reaches g a c → mem a (keys g) ≡ false → ⊥
  unfolding mem
  starts_at_key {a} {c} (step e) leaf =
      let none_there : mem c [] ≡ true = rw (dependencies_of_absent a g leaf) at e in cc
  starts_at_key (more r e) leaf = starts_at_key r leaf

  -- A list that holds every key and in which the steps stand behind their dependencies.
  pub record Order : Type 0 where
    pub steps : List String
    pub ordered : IsOrdered g steps
    pub complete : All (λ k. mem k steps ≡ true) (keys g)

  abbrev Decides : Option Bool → Type 0
  Decides none = ⊥
  Decides (some true) = (x : String) × Reaches g x x
  Decides (some false) = Order

  Decides-of_Sound : (r : Walk) → Sound g (keys g) unseen r → Decides (found_cycle r)
  Decides-of_Sound exhausted h = h
  Decides-of_Sound cyclic h = h
  Decides-of_Sound (clear s) h = record { steps = s.visited; ordered = h.1; complete = h.3 }

  detect_cycle-Decides : Decides (detect_cycle g)
  unfolding detect_cycle
  detect_cycle-Decides =
      Decides-of_Sound (walk_all (walk g (fuel_for g)) (keys g) unseen) search-Sound

  -- If the search finds no cycle there is an order of the steps.
  pub order_of_acyclic : detect_cycle g ≡ some false → Order
  order_of_acyclic e = subst Decides e detect_cycle-Decides

  -- An order of the steps leaves no room for a cycle.
  pub acyclic_of_order : Order → (x : String) → ¬ (Reaches g x x)
  acyclic_of_order o x r = elim (Bool-cases (mem x (keys g))) [
    | inl key ↦
        ordered_acyclic g o.steps x o.ordered
          (mem_of_All (λ y. mem y o.steps) x (keys g) o.complete key) r
    | inr leaf ↦ starts_at_key r leaf
  ]

-- For every graph `_detect_cycle` ends. Either it returns true and some step depends on itself,
-- over one step or more, or it returns false and no step does.
pub detect_cycle_correct :
    (g : Graph)
    → (detect_cycle g ≡ some true) × ((x : String) × Reaches g x x)
      ⊎ (detect_cycle g ≡ some false) × ((x : String) → ¬ (Reaches g x x))
detect_cycle_correct g = by_result (detect_cycle g) (detect_cycle-Decides g)
  where
    by_result :
        (o : Option Bool)
        → Decides g o
        → (o ≡ some true) × ((x : String) × Reaches g x x)
          ⊎ (o ≡ some false) × ((x : String) → ¬ (Reaches g x x))
    by_result none h = elim h [ ]
    by_result (some true) h = inl (refl, h)
    by_result (some false) h = inr (refl, acyclic_of_order g h)
