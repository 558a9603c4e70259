-- ===== src/PlanGuard/Graph/Sort.antt =====
-- What `_topological_sort` of packages/domain/services/plan_guard.py returns.
use mathlib.Core.List.{reverse, reverse-append, reverse-reverse}
use gis_agent.Prelude.{
  ℕ, zero, suc, ◌+◌, ◌<◌, String, true, false, some, List, [], ◌∷◌, ◌++◌, mem, distinct, eq_iff,
  arith, ◌≡◌, refl, ap, sym, ◌∙◌, Bool-cases, inl, inr, All,
}
use gis_agent.Prelude.Int.{pos}
use gis_agent.Prelude.Dict.{keys}
use gis_agent.PlanGuard.Graph.{
  Graph, Degrees, dependencies, children_of, indegrees, roots, release_all, sort_loop,
  topological_sort, fuel_for, detect_cycle,
}
use gis_agent.PlanGuard.Graph.Sets.{
  count, count_pos, absent, absent-nil, absent-cons, absent-cons-lt, absent_zero,
  All-of_absent_zero, mem-cons_cases, mem-cons_self, mem-cons_of_mem, mem-reverse, All-of_mem,
  mem_of_All, distinct-reverse, dependencies_of_absent, length-keys,
}
use gis_agent.PlanGuard.Graph.Paths.{Edge, IsOrdered}
use gis_agent.PlanGuard.Graph.Children.{
  count-children_of, lookup-indegrees, mem-roots, roots_complete, distinct-roots,
}
use gis_agent.PlanGuard.Graph.Release.{Ready, release_all-Ready, Ready-cong}
use gis_agent.PlanGuard.Graph.Cycle.{order_of_acyclic}

-- Every dependency is a key, as `_build_dependency_graph` sees to.
abbrev pub IsClosed : Graph → Type 0
IsClosed g = (a b : String) → Edge g a b → mem b (keys g) ≡ true

-- How many dependencies of `j` are not in `done`.
abbrev left : Graph → List String → String → ℕ
left g done j = absent (dependencies g j) done

-- The steps that are sorted so far, the latest first.
record Done (g : Graph) (done : List String) : Type 0 where
  ordered : IsOrdered g done
  once : distinct done ≡ true
  known : (j : String) → mem j done ≡ true → mem j (keys g) ≡ true

module _ (g : Graph) (unique : distinct (keys g) ≡ true) where
  child_key : (k j : String) → mem j (dependencies (children_of g) k) ≡ true → mem j (keys g) ≡ true
  child_key k j h = elim (Bool-cases (mem j (keys g))) [
    | inl key ↦ key
    | inr leaf ↦
        let none_there : count k [] ≡ count j (dependencies (children_of g) k) =
          ap (count k) (sym (dependencies_of_absent j g leaf))
          ∙ sym (count-children_of g j k unique) in
        absurd (
          unfold count in omega (arith, none_there, count_pos j (dependencies (children_of g) k) h))
  ]

  -- The queue's first step moves to the sorted ones, and its children are released.
  pop-Ready :
      (k : String) (queue done : List String) (d : Degrees)
      → Ready g done (left g done) d (k ∷ queue)
      → Ready g (k ∷ done) (left g done) d queue
  unfolding mem distinct
  pop-Ready k queue done d r =
      let head = r.queued k (mem-cons_self k queue) in
      record {
        degrees = r.degrees;
        queued =
            λ j h. ground (arith, r.queued j (mem-cons_of_mem j k queue h), r.fresh, eq_iff j k);
        fresh = ground (arith, r.fresh);
        reached = λ j key z. ground (arith, r.reached j key z);
        settled =
            λ j h. elim (mem-cons_cases j k done h) [ inl e ↦ rw e head.1 | inr m ↦ r.settled j m ];
      }

  left-cons :
      (k : String) (done : List String) (j : String)
      → mem k done ≡ false
      → left g (k ∷ done) j + count j (dependencies (children_of g) k) ≡ left g done j
  left-cons k done j new =
      ap (λ (c : ℕ). left g (k ∷ done) j + c) (count-children_of g j k unique)
      ∙ absent-cons k (dependencies g j) done new

  step-Ready :
      (k : String) (queue done : List String) (d : Degrees)
      → Ready g done (left g done) d (k ∷ queue)
      → Ready g
          (k ∷ done)
          (left g (k ∷ done))
          (release_all (dependencies (children_of g) k) (d, queue)).0
          (release_all (dependencies (children_of g) k) (d, queue)).1
  step-Ready k queue done d r =
      let new = (r.queued k (mem-cons_self k queue)).2 in
      Ready-cong g (k ∷ done) (λ j. omega (arith, left-cons k done j new))
        (release_all-Ready g (k ∷ done) (dependencies (children_of g) k) (left g done) d queue
          (child_key k) (λ j. omega (arith, left-cons k done j new)) (pop-Ready k queue done d r))

  step-Done :
      (k : String) (queue done : List String) (d : Degrees)
      → Ready g done (left g done) d (k ∷ queue)
      → Done g done
      → Done g (k ∷ done)
  unfolding distinct
  step-Done k queue done d r o =
      let head = r.queued k (mem-cons_self k queue) in
      record {
        ordered = (All-of_absent_zero (dependencies g k) done head.1, o.ordered);
        once = rw (head.2, o.once) refl;
        known =
            λ j h. elim (mem-cons_cases j k done h) [ inl e ↦ rw e head.0 | inr m ↦ o.known j m ];
      }

  -- What the loop returns: all is in order, and no step is left whose dependencies are all sorted.
  abbrev Sorted : List String → Type 0
  Sorted steps =
      Done g (reverse steps)
      × ((j : String)
          → mem j (keys g) ≡ true
          → left g (reverse steps) j ≡ 0
          → mem j (reverse steps) ≡ true)

  sort_loop-Sorted :
      (fuel : ℕ) (d : Degrees) (queue ordered done : List String)
      → reverse ordered ≡ done
      → absent (keys g) done < fuel
      → Ready g done (left g done) d queue
      → Done g done
      → (steps : List String) × (sort_loop (children_of g) fuel d queue ordered ≡ some steps)
        × Sorted steps
  unfolding sort_loop mem
  sort_loop-Sorted fuel d [] ordered done e enough r o =
      (ordered, refl, (rw e o, λ j key. rw e (λ z. ground (arith, r.reached j key z))))
  sort_loop-Sorted zero d (k ∷ queue) ordered done e enough r o = elim enough [ ]
  sort_loop-Sorted (suc fuel) d (k ∷ queue) ordered done e enough r o =
      let head = r.queued k (mem-cons_self k queue) in
      let s = release_all (dependencies (children_of g) k) (d, queue) in
      sort_loop-Sorted fuel s.0 s.1 (ordered ++ k ∷ []) (k ∷ done)
        (reverse-append ordered (k ∷ []) ∙ ap (λ (l : List String). k ∷ l) e)
        (omega (arith, absent-cons-lt k (keys g) done head.0 head.2)) (step-Ready k queue done d r)
        (step-Done k queue done d r o)

  start-Ready : Ready g [] (left g []) (indegrees g) (roots (indegrees g))
  unfolding mem
  start-Ready = record {
    degrees = λ j key.
        lookup-indegrees g j key
        ∙ ap (λ (n : ℕ). some (pos n)) (sym (absent-nil (dependencies g j)));
    queued = λ j h.
        let (key, none_left) = mem-roots g j unique h in
        (key, absent-nil (dependencies g j) ∙ none_left, refl);
    fresh = distinct-roots g unique;
    reached = λ j key z. inl (roots_complete g j key (sym (absent-nil (dependencies g j)) ∙ z));
    settled = λ j h. cc;
  }

  sort-Sorted : (steps : List String) × (topological_sort g ≡ some steps) × Sorted steps
  unfolding topological_sort
  sort-Sorted =
      sort_loop-Sorted (fuel_for g) (indegrees g) (roots (indegrees g)) [] [] refl
        (omega (arith, absent-nil (keys g), length-keys g)) start-Ready
        (record { ordered = tt; once = unfold distinct in refl; known = λ j h. unfold mem in cc })

  -- With an order of the steps at hand, each of them is sorted.
  all-Sorted :
      (steps order : List String)
      → IsClosed g
      → Sorted steps
      → IsOrdered g order
      → (j : String) → mem j order ≡ true
      → mem j (keys g) ≡ true
      → mem j (reverse steps) ≡ true
  unfolding mem
  all-Sorted steps [] is_closed s o j h key = cc
  all-Sorted steps (x ∷ order) is_closed s o j h key = elim (mem-cons_cases j x order h) [
    | inl e ↦ s.1 j key (
        absent_zero (dependencies g j) (reverse steps) (
          All-of_mem (dependencies g j) λ d dep.
            all-Sorted steps order is_closed s o.1 d
              (mem_of_All (λ y. mem y order) d (dependencies g x) o.0 (rw e at dep))
              (is_closed j d dep)))
    | inr m ↦ all-Sorted steps order is_closed s o.1 j m key
  ]

-- A list of keys, each at most once, in which the steps stand behind their dependencies.
pub record IsTopological (g : Graph) (steps : List String) : Type 0 where
  pub once : distinct steps ≡ true
  pub known : All (λ k. mem k (keys g) ≡ true) steps
  pub ordered : IsOrdered g (reverse steps)

module _ (g : Graph) (unique : distinct (keys g) ≡ true) where
  IsTopological-of_Done : (steps : List String) → Done g (reverse steps) → IsTopological g steps
  IsTopological-of_Done steps o = record {
    once = rw reverse-reverse at (distinct-reverse (reverse steps) o.once);
    known = All-of_mem steps (λ k h. o.known k (mem-reverse k steps ∙ h));
    ordered = o.ordered;
  }

  -- On a graph with distinct keys, such as every `dict` is, `_topological_sort` ends. What it
  -- returns are keys, each at most once, and each behind all of its dependencies.
  pub topological_sort_sound :
      (steps : List String) × (topological_sort g ≡ some steps) × IsTopological g steps
  topological_sort_sound =
      let (steps, e, sorted) = sort-Sorted g unique in
      (steps, e, IsTopological-of_Done steps sorted.0)

  -- If moreover every dependency is a key and `_detect_cycle` finds no cycle, the result of
  -- `_topological_sort` holds every key.
  pub topological_sort_complete :
      IsClosed g
      → detect_cycle g ≡ some false
      → (steps : List String) × (topological_sort g ≡ some steps)
        × All (λ k. mem k steps ≡ true) (keys g)
  topological_sort_complete is_closed acyclic =
      let (steps, e, sorted) = sort-Sorted g unique in
      let o = order_of_acyclic g acyclic in
      (
        steps,
        e,
        All-of_mem (keys g) λ k key.
            sym (mem-reverse k steps)
            ∙ all-Sorted g unique steps o.steps is_closed sorted o.ordered k
                (mem_of_All (λ y. mem y o.steps) k (keys g) o.complete key) key,
      )
